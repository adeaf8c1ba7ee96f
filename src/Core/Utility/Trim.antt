-- ===== src/Core/Utility/Trim.antt =====
-- What the functions on strings return.
use mathlib.Core.List.{append_assoc, append-nil}
use hyperion_server.Common.{
  ℕ, zero, suc, ◌+◌, ◌-◌, ◌≤◌, ◌<◌, ◌≡◌, refl, sym, ap, ◌∙◌, ◌⊎◌, inl, inr, Bool, true, false, List,
  [], ◌∷◌, ◌++◌, length, All, length-append, ltb, All-append, Bool-cases, arith,
}
use hyperion_server.Common.Text.{Text}
use hyperion_server.Core.Utility.{
  char_at, take, drop, is_trim_char, trim_start, trim_end, trim_trailing, str_trim, pad_to,
  str_match_len, str_to_lower, str_to_upper, to_lower, to_upper,
}
use hyperion_server.Core.Utility.Slices.{
  take-drop, length-take, length-drop, char_at-take, char_at-drop, All-take, All-drop,
}

here_or_after : (i j : ℕ) → i ≤ j → (i ≡ j) ⊎ (i + 1 ≤ j)
here_or_after i j l = ground arith

module _ (is_trim : ℕ → Bool) (str : Text) where
  start_le : (fuel i : ℕ) → i ≤ length str → trim_start is_trim str fuel i ≤ length str
  unfolding trim_start
  start_le zero i h = h
  start_le (suc fuel) i h = ground (arith, start_le fuel (i + 1))

  start_trims :
      (fuel i j : ℕ) → i ≤ j → j < trim_start is_trim str fuel i → is_trim (char_at str j) ≡ true
  unfolding trim_start
  start_trims zero i j l h = absurd (omega arith)
  start_trims (suc fuel) i j l h = elim (Bool-cases (is_trim (char_at str i))) [
    | inl e ↦ elim (here_or_after i j l) [
      | inl q ↦ ap (λ k. is_trim (char_at str k)) (sym q) ∙ e
      | inr m ↦ ground (arith, start_trims fuel (i + 1) j m)
    ]
    | inr e ↦ ground arith
  ]

  -- Enough rounds: the loop stops at the end of the string or at a character that stays.
  start_stops :
      (fuel i : ℕ)
      → length str ≤ fuel + i
      → trim_start is_trim str fuel i < length str
      → is_trim (char_at str (trim_start is_trim str fuel i)) ≡ false
  unfolding trim_start
  start_stops zero i l h = absurd (omega arith)
  start_stops (suc fuel) i l h = elim (Bool-cases (is_trim (char_at str i))) [
    | inl e ↦ ground (arith, start_stops fuel (i + 1))
    | inr e ↦ rw e e
  ]

  end_le : (i : ℕ) → trim_end is_trim str i ≤ i
  unfolding trim_end
  end_le zero = omega arith
  end_le (suc i) = ground (arith, end_le i)

  end_trims : (i j : ℕ) → trim_end is_trim str i < j → j ≤ i → is_trim (char_at str j) ≡ true
  unfolding trim_end
  end_trims zero j h l = absurd (omega arith)
  end_trims (suc i) j h l = elim (Bool-cases (is_trim (char_at str (suc i)))) [
    | inl e ↦ elim (here_or_after j (suc i) l) [
      | inl q ↦ ap (λ k. is_trim (char_at str k)) q ∙ e
      | inr m ↦ ground (arith, end_trims i j)
    ]
    | inr e ↦ ground arith
  ]

  end_stops :
      (i : ℕ) → 0 < trim_end is_trim str i → is_trim (char_at str (trim_end is_trim str i)) ≡ false
  unfolding trim_end
  end_stops zero h = absurd (omega arith)
  end_stops (suc i) h = elim (Bool-cases (is_trim (char_at str (suc i)))) [
    | inl e ↦ ground (arith, end_stops i)
    | inr e ↦ rw e e
  ]

-- What `StrTrim` leaves of a string: a part of it without trimmed characters at its ends, and only
-- trimmed characters before and after it.
pub record IsTrimOf (is_trim : ℕ → Bool) (str trimmed : Text) : Type 0 where
  pub before : Text
  pub after : Text
  pub whole : str ≡ before ++ (trimmed ++ after)
  pub before_trimmed : All (λ c. is_trim c ≡ true) before
  pub after_trimmed : All (λ c. is_trim c ≡ true) after
  pub first : 0 < length trimmed → is_trim (char_at trimmed 0) ≡ false
  pub last : 0 < length trimmed → is_trim (char_at trimmed (length trimmed - 1)) ≡ false

module _ (is_trim : ℕ → Bool) where
  -- The trailing characters, where the first one stays.
  trim_trailing-IsTrimOf :
      (str : Text)
      → (0 < length str → is_trim (char_at str 0) ≡ false)
      → IsTrimOf is_trim str (trim_trailing is_trim str)
  unfolding trim_trailing
  trim_trailing-IsTrimOf [] h = record {
    before = [];
    after = [];
    whole = refl;
    before_trimmed = tt;
    after_trimmed = tt;
    first = λ p. absurd (omega arith);
    last = λ p. absurd (omega arith);
  }
  trim_trailing-IsTrimOf (c ∷ str) h =
      let s : Text = c ∷ str in
      let e : ℕ = trim_end is_trim s (length s - 1) in
      let low : e + 1 ≤ length s = omega (arith, end_le is_trim s (length s - 1)) in
      record {
        before = [];
        after = drop (e + 1) s;
        whole = sym (take-drop (e + 1) s);
        before_trimmed = tt;
        after_trimmed =
            All-drop (λ c. is_trim c ≡ true) (e + 1) s
              (λ j l p. end_trims is_trim s (length s - 1) j (omega arith) (omega arith));
        first = λ p. ap is_trim (char_at-take (e + 1) 0 s (omega arith)) ∙ h (omega arith);
        last = λ p.
            let place : length (take (e + 1) s) - 1 ≡ e =
              omega (arith, length-take (e + 1) s low) in
            rw place (
              ap is_trim (char_at-take (e + 1) e s (omega arith))
              ∙ stays s (length s - 1) (h (omega arith)));
      }
    where
      stays :
          (s : Text) (i : ℕ)
          → is_trim (char_at s 0) ≡ false
          → is_trim (char_at s (trim_end is_trim s i)) ≡ false
      stays s i h0 = elim (here_or_after 0 (trim_end is_trim s i) (omega arith)) [
        | inl q ↦ ap (λ k. is_trim (char_at s k)) (sym q) ∙ h0
        | inr m ↦ end_stops is_trim s i (omega arith)
      ]

-- `StrTrim` takes away exactly the listed characters at both ends: what it returns stands in the
-- string, has no listed character at either end, and has only listed characters before and after
-- it.
pub str_trim-IsTrimOf :
    (str : Text) (chars : List ℕ) → IsTrimOf (is_trim_char chars) str (str_trim str chars)
unfolding str_trim
str_trim-IsTrimOf str chars =
    let r : ℕ = trim_start is_trim str (length str) 0 in
    let low : r ≤ length str = start_le is_trim str (length str) 0 (omega arith) in
    let t =
      trim_trailing-IsTrimOf is_trim (drop r str)
        (λ p. ap is_trim (char_at-drop r 0 str) ∙ starts (omega (arith, length-drop r str))) in
    record {
      before = take r str ++ t.before;
      after = t.after;
      whole =
          sym (take-drop r str)
          ∙ ap (λ s. take r str ++ s) t.whole
          ∙ sym (append_assoc (take r str) t.before (str_trim str chars ++ t.after));
      before_trimmed =
          All-append (λ c. is_trim c ≡ true) (take r str) t.before
            (All-take (λ c. is_trim c ≡ true) r str low
              (λ j p. start_trims is_trim str (length str) 0 j (omega arith) p))
            t.before_trimmed;
      after_trimmed = t.after_trimmed;
      first = t.first;
      last = t.last;
    }
  where
    is_trim : ℕ → Bool
    is_trim = is_trim_char chars

    starts :
        let r = trim_start is_trim str (length str) 0 in
        r < length str → is_trim (char_at str (r + 0)) ≡ false
    starts p =
        ap (λ k. is_trim (char_at str k)) (omega arith)
        ∙ start_stops is_trim str (length str) 0 (omega arith) p

to_upper-to_lower : (c : ℕ) → to_upper (to_lower c) ≡ to_upper c
to_upper-to_lower c = ground arith

-- Upper case forgets what lower case changed.
pub str_to_upper-str_to_lower : (str : Text) → str_to_upper (str_to_lower str) ≡ str_to_upper str
unfolding str_to_upper str_to_lower
str_to_upper-str_to_lower [] = refl
str_to_upper-str_to_lower (c ∷ str) =
    rw (to_upper-to_lower c) (ap (λ s. to_upper c ∷ s) (str_to_upper-str_to_lower str))

abbrev pub replicate : ℕ → ℕ → Text
replicate zero c = []
replicate (suc n) c = c ∷ replicate n c

pad_to-replicate :
    (fuel n padding : ℕ) (str : Text)
    → n ≤ fuel + length str
    → pad_to fuel n padding str ≡ str ++ replicate (n - length str) padding
unfolding pad_to
pad_to-replicate zero n padding str h =
    let none_left : n - length str ≡ 0 = omega arith in rw none_left (sym (append-nil str))
pad_to-replicate (suc fuel) n padding str h = elim (Bool-cases (ltb (length str) n)) [
  | inl e ↦ rw e (
      let more : n - length str ≡ suc (n - length (str ++ padding ∷ [])) =
        ground (arith, length-append str (padding ∷ [])) in
      rw more (
        pad_to-replicate fuel n padding (str ++ padding ∷ [])
          (ground (arith, length-append str (padding ∷ [])))
        ∙ append_assoc str (padding ∷ []) _))
  | inr e ↦
      rw e
        (let none_left : n - length str ≡ 0 = ground arith in rw none_left (sym (append-nil str)))
]

-- `StrMatchLen` adds the padding that is missing, and nothing to a string that is long enough.
pub str_match_len-replicate :
    (str : Text) (target_len padding : ℕ)
    → str_match_len str target_len padding ≡ str ++ replicate (target_len - length str) padding
unfolding str_match_len
str_match_len-replicate str target_len padding =
    pad_to-replicate target_len target_len padding str (omega arith)
