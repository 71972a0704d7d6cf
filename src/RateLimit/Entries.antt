-- ===== src/RateLimit/Entries.antt =====
-- The `Map` of the rate limiter (server/auth-rate-limit.ts): its operations by key.
use barber_bookings.Common.{
  String, Bool, true, false, List, [], ◌∷◌, Option, none, some, filter, ◌≡◌, refl, sym, ap, ◌∙◌,
  arith, length, ltb, Bool-cases, ◌⊎◌, inl, inr, if◌then◌else◌, All, All-map, str_eq, str_eq_iff,
}
use barber_bookings.Schema.{Instant}
use barber_bookings.RateLimit.{Entries, Item, RateLimitEntry, delete, get, is_live, prune, set}

-- No key twice.
abbrev pub IsUnique : Entries → Type 0
IsUnique [] = Unit
IsUnique (i ∷ items) = All (λ j. str_eq j.key i.key ≡ false) items × IsUnique items

pub str_eq_refl : (s : String) → str_eq s s ≡ true
str_eq_refl s = (str_eq_iff s s).1 refl

-- Texts compare as their equality.
str_eq-left : (a b c : String) → str_eq a b ≡ true → str_eq a c ≡ str_eq b c
str_eq-left a b c h = ap (λ x. str_eq x c) ((str_eq_iff a b).0 h)

str_eq_sym : (a b : String) → str_eq a b ≡ false → str_eq b a ≡ false
str_eq_sym a b h = elim (Bool-cases (str_eq b a)) [
  | inr f ↦ f
  | inl t ↦
      let both : true ≡ false = sym (str_eq_refl b) ∙ str_eq-left b a b t ∙ h in
      absurd (ground arith)
]

pub get-set_same :
    (key : String) (entry : RateLimitEntry) (items : Entries)
    → get key (set key entry items) ≡ some entry
unfolding get set
get-set_same key entry [] = rw (str_eq_refl key) refl
get-set_same key entry (i ∷ items) = elim (Bool-cases (str_eq i.key key)) [
  | inl t ↦ rw (t, get, str_eq_refl key) refl
  | inr f ↦ rw (f, get, f) (get-set_same key entry items)
]

pub get-set_other :
    (key other : String) (entry : RateLimitEntry) (items : Entries)
    → str_eq key other ≡ false
    → get other (set key entry items) ≡ get other items
unfolding get set
get-set_other key other entry [] h = rw h refl
get-set_other key other entry (i ∷ items) h = elim (Bool-cases (str_eq i.key key)) [
  | inl t ↦ rw (t, get, h, str_eq-left i.key key other t ∙ h) refl
  | inr f ↦ let rest = get-set_other key other entry items h in rw (f, get, rest) refl
]

pub get-delete_same : (key : String) (items : Entries) → get key (delete key items) ≡ none
unfolding get delete
get-delete_same key [] = refl
get-delete_same key (i ∷ items) = elim (Bool-cases (str_eq i.key key)) [
  | inl t ↦ rw t (get-delete_same key items)
  | inr f ↦ rw (f, get, f) (get-delete_same key items)
]

pub get-delete_other :
    (key other : String) (items : Entries)
    → str_eq key other ≡ false
    → get other (delete key items) ≡ get other items
unfolding get delete
get-delete_other key other [] h = refl
get-delete_other key other (i ∷ items) h =
    let rest = get-delete_other key other items h in
    elim (Bool-cases (str_eq i.key key)) [
      | inl t ↦ rw (t, str_eq-left i.key key other t ∙ h) rest
      | inr f ↦ rw (f, get, rest) refl
    ]

-- An entry that has not expired.
abbrev pub keep_live : Instant → Option RateLimitEntry → Option RateLimitEntry
keep_live now none = none
keep_live now (some e) = if ltb now e.reset_at then some e else none

get-absent :
    (key : String) (items : Entries)
    → All (λ j. str_eq j.key key ≡ false) items
    → get key items ≡ none
unfolding get
get-absent key [] h = refl
get-absent key (i ∷ items) h = rw h.0 (get-absent key items h.1)

All-filter_of :
    {A : Type 0} (P : A → Type 0) (p : A → Bool) (xs : List A) → All P xs → All P (filter p xs)
All-filter_of P p [] h = tt
All-filter_of P p (x ∷ xs) h =
    let rest = All-filter_of P p xs h.1 in
    elim (Bool-cases (p x)) [ inl t ↦ rw t (h.0, rest) | inr f ↦ rw f rest ]

pub filter-IsUnique :
    (p : Item → Bool) (items : Entries) → IsUnique items → IsUnique (filter p items)
filter-IsUnique p [] h = tt
filter-IsUnique p (i ∷ items) h =
    let rest = filter-IsUnique p items h.1 in
    elim (Bool-cases (p i)) [
      | inl t ↦ rw t (All-filter_of (λ j. str_eq j.key i.key ≡ false) p items h.0, rest)
      | inr f ↦ rw f rest
    ]

set-keys :
    (key other : String) (entry : RateLimitEntry) (items : Entries)
    → str_eq key other ≡ false
    → All (λ j. str_eq j.key other ≡ false) items
    → All (λ j. str_eq j.key other ≡ false) (set key entry items)
unfolding set
set-keys key other entry [] h k = (h, tt)
set-keys key other entry (i ∷ items) h k = elim (Bool-cases (str_eq i.key key)) [
  | inl t ↦ rw (t, set) (h, k.1)
  | inr f ↦ rw (f, set) (k.0, set-keys key other entry items h k.1)
]

pub set-IsUnique :
    (key : String) (entry : RateLimitEntry) (items : Entries)
    → IsUnique items
    → IsUnique (set key entry items)
unfolding set
set-IsUnique key entry [] h = (tt, tt)
set-IsUnique key entry (i ∷ items) h = elim (Bool-cases (str_eq i.key key)) [
  | inl t ↦
      let same = (str_eq_iff i.key key).0 t in
      rw (t, set)
        (
          All-map (λ j (k : str_eq j.key i.key ≡ false). ap (str_eq j.key) (sym same) ∙ k) items
              h.0,
          h.1,
        )
  | inr f ↦
      rw (f, set)
        (
          set-keys key i.key entry items (str_eq_sym i.key key f) h.0,
          set-IsUnique key entry items h.1,
        )
]

-- What the pruning of the expired items leaves of a key.
get-live :
    (now : Instant) (key : String) (items : Entries)
    → IsUnique items
    → get key (filter (is_live now) items) ≡ keep_live now (get key items)
unfolding get
get-live now key [] h = refl
get-live now key (i ∷ items) h =
    let rest = get-live now key items h.1 in
    elim (Bool-cases (is_live now i)) [
      | inl t ↦ elim (Bool-cases (str_eq i.key key)) [
        | inl s ↦ rw (t, get, s, t) refl
        | inr f ↦ rw (t, get, f, rest) refl
      ]
      | inr d ↦ elim (Bool-cases (str_eq i.key key)) [
        | inl s ↦
            let same = (str_eq_iff i.key key).0 s in
            let gone = get-absent key items (
              All-map (λ j (k : str_eq j.key i.key ≡ false). ap (str_eq j.key) (sym same) ∙ k) items
                h.0) in
            rw (d, s, d, rest, gone) refl
        | inr f ↦ rw (d, f, rest) refl
      ]
    ]

pub prune-cases :
    (now : Instant) (key : String) (items : Entries)
    → IsUnique items
    → (get key (prune now items) ≡ get key items)
      ⊎ (get key (prune now items) ≡ keep_live now (get key items))
unfolding prune
prune-cases now key items h = elim (Bool-cases (ltb (length items) 1000)) [
  | inl t ↦ inl (rw t refl)
  | inr f ↦ inr (rw f (get-live now key items h))
]

pub prune-IsUnique : (now : Instant) (items : Entries) → IsUnique items → IsUnique (prune now items)
unfolding prune
prune-IsUnique now items h = elim (Bool-cases (ltb (length items) 1000)) [
  | inl t ↦ rw t h
  | inr f ↦ rw f (filter-IsUnique (is_live now) items h)
]
