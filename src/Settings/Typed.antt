-- ===== src/Settings/Typed.antt =====
-- What the four programs share about where a setting comes from: the file or, without it, what stands in
-- the field before the file is read; and that it has the type of its field.
use xtaci_kcptun.Prelude.{
  ◌≡◌, ◌≢◌, not, refl, ◌⊎◌, inl, inr, String, List, [], ◌∷◌, Option, none, some, Bool, true, false,
  ◌&&◌, lookup, string_eq, Bool-cases, arith,
}
use xtaci_kcptun.Prelude.Int.{ℤ}
use xtaci_kcptun.Settings.{
  Value, text, number, flag, null, other, Json, Kind, is_string, is_int, is_bool, string_or, int_or,
  bool_or, fits, well_typed,
}

abbrev pub has_kind : Kind → Value → Bool
has_kind is_string (text v) = true
has_kind is_int (number v) = true
has_kind is_bool (flag v) = true
has_kind kind v = false

-- The value of a field: what the file has for its key, of the field's type, or what stood in it when
-- the file has nothing or null.
pub data IsTaken (json : Json) (key : String) (kind : Kind) (old v : Value) : Type 0 where
  by_file : lookup key json ≡ some v → has_kind kind v ≡ true → IsTaken json key kind old v
  by_flag :
      (lookup key json ≡ none) ⊎ (lookup key json ≡ some null)
      → v ≡ old
      → IsTaken json key kind old v

abbrev pub AllTaken : Json → List (String × Kind) → List Value → List Value → Type 0
AllTaken json [] [] [] = Unit {0}
AllTaken json ((key, kind) ∷ fields) (old ∷ olds) (v ∷ vs) =
    IsTaken json key kind old v × AllTaken json fields olds vs
AllTaken json fields olds vs = ⊥

-- The value that the file has for some field is of another type.
abbrev pub HasMisfit : Json → List (String × Kind) → Type 0
HasMisfit json [] = ⊥
HasMisfit json ((key, kind) ∷ fields) =
    (fits kind (lookup key json) ≡ false) ⊎ HasMisfit json fields

-- Values of the types of their fields.
abbrev pub all_typed : List (String × Kind) → List Value → Bool
all_typed [] [] = true
all_typed ((key, kind) ∷ fields) (v ∷ vs) = has_kind kind v && all_typed fields vs
all_typed fields vs = false

abbrev pub value_of : Kind → Option Value → Value → Value
value_of is_string o (text v) = text (string_or o v)
value_of is_int o (number v) = number (int_or o v)
value_of is_bool o (flag v) = flag (bool_or o v)
value_of kind o old = old

abbrev pub settled : Json → List (String × Kind) → List Value → List Value
settled json [] olds = []
settled json (field ∷ fields) [] = []
settled json ((key, kind) ∷ fields) (old ∷ olds) =
    value_of kind (lookup key json) old ∷ settled json fields olds

module _ (json : Json) (key : String) where
  string-IsTaken :
      (v : String) (o : Option Value)
      → lookup key json ≡ o
      → fits is_string o ≡ true
      → IsTaken json key is_string (text v) (text (string_or o v))
  string-IsTaken v none found fit = by_flag (inl found) refl
  string-IsTaken v (some null) found fit = by_flag (inr found) refl
  string-IsTaken v (some (text w)) found fit = by_file found refl
  string-IsTaken v (some (number w)) found fit = absurd (cc fit)
  string-IsTaken v (some (flag w)) found fit = absurd (cc fit)
  string-IsTaken v (some other) found fit = absurd (cc fit)

  int-IsTaken :
      (v : ℤ) (o : Option Value)
      → lookup key json ≡ o
      → fits is_int o ≡ true
      → IsTaken json key is_int (number v) (number (int_or o v))
  int-IsTaken v none found fit = by_flag (inl found) refl
  int-IsTaken v (some null) found fit = by_flag (inr found) refl
  int-IsTaken v (some (text w)) found fit = absurd (cc fit)
  int-IsTaken v (some (number w)) found fit = by_file found refl
  int-IsTaken v (some (flag w)) found fit = absurd (cc fit)
  int-IsTaken v (some other) found fit = absurd (cc fit)

  bool-IsTaken :
      (v : Bool) (o : Option Value)
      → lookup key json ≡ o
      → fits is_bool o ≡ true
      → IsTaken json key is_bool (flag v) (flag (bool_or o v))
  bool-IsTaken v none found fit = by_flag (inl found) refl
  bool-IsTaken v (some null) found fit = by_flag (inr found) refl
  bool-IsTaken v (some (text w)) found fit = absurd (cc fit)
  bool-IsTaken v (some (number w)) found fit = absurd (cc fit)
  bool-IsTaken v (some (flag w)) found fit = by_file found refl
  bool-IsTaken v (some other) found fit = absurd (cc fit)

  value_of-IsTaken :
      (kind : Kind) (old : Value)
      → has_kind kind old ≡ true
      → fits kind (lookup key json) ≡ true
      → IsTaken json key kind old (value_of kind (lookup key json) old)
  value_of-IsTaken is_string (text v) typed fit = string-IsTaken v (lookup key json) refl fit
  value_of-IsTaken is_int (number v) typed fit = int-IsTaken v (lookup key json) refl fit
  value_of-IsTaken is_bool (flag v) typed fit = bool-IsTaken v (lookup key json) refl fit
  value_of-IsTaken is_string (number v) typed fit = absurd (cc typed)
  value_of-IsTaken is_string (flag v) typed fit = absurd (cc typed)
  value_of-IsTaken is_string null typed fit = absurd (cc typed)
  value_of-IsTaken is_string other typed fit = absurd (cc typed)
  value_of-IsTaken is_int (text v) typed fit = absurd (cc typed)
  value_of-IsTaken is_int (flag v) typed fit = absurd (cc typed)
  value_of-IsTaken is_int null typed fit = absurd (cc typed)
  value_of-IsTaken is_int other typed fit = absurd (cc typed)
  value_of-IsTaken is_bool (text v) typed fit = absurd (cc typed)
  value_of-IsTaken is_bool (number v) typed fit = absurd (cc typed)
  value_of-IsTaken is_bool null typed fit = absurd (cc typed)
  value_of-IsTaken is_bool other typed fit = absurd (cc typed)

pub settled-AllTaken :
    (json : Json) (fields : List (String × Kind)) (olds : List Value)
    → all_typed fields olds ≡ true
    → well_typed fields json ≡ true
    → AllTaken json fields olds (settled json fields olds)
unfolding well_typed
settled-AllTaken json [] [] typed fit = tt
settled-AllTaken json [] (old ∷ olds) typed fit = absurd (cc typed)
settled-AllTaken json (field ∷ fields) [] typed fit = absurd (cc typed)
settled-AllTaken json ((key, kind) ∷ fields) (old ∷ olds) typed fit = (
  value_of-IsTaken json key kind old (ground arith) (ground arith),
  settled-AllTaken json fields olds (ground arith) (ground arith),
)

pub well_typed-HasMisfit :
    (json : Json) (fields : List (String × Kind))
    → well_typed fields json ≡ false
    → HasMisfit json fields
unfolding well_typed
well_typed-HasMisfit json [] e = absurd (cc e)
well_typed-HasMisfit json ((key, kind) ∷ fields) e =
    elim (Bool-cases (fits kind (lookup key json))) [
      | inl fit ↦ inr (well_typed-HasMisfit json fields (ground (arith, fit, e)))
      | inr misfit ↦ inl misfit
    ]

-- Either no log file is named or it can be opened, or one is named that cannot.
pub log_cases :
    (opens : String → Bool) (log : String)
    → ((not (string_eq.beq log "") && not (opens log) ≡ false) × ((log ≡ "") ⊎ (opens log ≡ true)))
      ⊎ ((not (string_eq.beq log "") && not (opens log) ≡ true) × (log ≢ "") × (opens log ≡ false))
log_cases opens log = elim (Bool-cases (string_eq.beq log "")) [
  | inl unnamed ↦
      inl (ground (arith, unnamed), inl (ground (arith, unnamed, string_eq.beq_iff log "")))
  | inr named ↦ elim (Bool-cases (opens log)) [
    | inl opened ↦ inl (ground (arith, named, opened), inr opened)
    | inr fails ↦ inr (
      ground (arith, named, fails),
      λ e. ground (arith, named, e, string_eq.beq_iff log ""),
      fails,
    )
  ]
]
