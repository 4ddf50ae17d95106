-- ===== src/Startup.antt =====
-- The arguments that crates/conductor/src/main.rs reads at its start.
use daemon_choir.Base.{
  ℕ, zero, suc, ◌≤◌, ◌≡◌, refl, ap, arith, Bool, true, false, ◌||◌, Bool-cases, inl, inr, Option,
  none, some, String, List, [], ◌∷◌, if◌then◌else◌, str_eq, length, get_elem?, drop,
}

-- `config_path` and `simulate`
pub record Options : Type 0 where
  pub config_path : Option String
  pub simulate : Bool

abbrev pub is_config : String → Bool
is_config arg = str_eq arg "--config" || str_eq arg "-c"

abbrev pub is_simulate : String → Bool
is_simulate arg = str_eq arg "--simulate" || str_eq arg "-s"

-- `args[i + 1]`, if it is there, with `i += 1`
abbrev pub take_path : ℕ → Option String → Options → ℕ × Options
take_path i none o = (i, o)
take_path i (some path) o = (suc i, record o { config_path = some path })

-- an argument that is not `--config`
abbrev pub set_flag : String → Options → Options
set_flag arg o = if is_simulate arg then record o { simulate = true } else o

-- the body of the loop at `args[i]`, with the `i` and the options after it
unfoldable pub read_arg : List String → ℕ → String → Options → ℕ × Options
read_arg args i arg o =
    if is_config arg then take_path (suc i) (get_elem? args (suc i)) o else (suc i, set_flag arg o)

-- `while i < args.len()`, on fuel
unfoldable pub read_args : ℕ → List String → ℕ → Options → Options
unfolding read_arg
read_args zero args i o = o
read_args (suc fuel) args i o = elim (get_elem? args i) [
  | none ↦ o
  | some arg ↦ read_args fuel args (read_arg args i arg o).0 (read_arg args i arg o).1
]

-- the options of a command line, whose first argument is the program's name
unfoldable pub parse_args : List String → Options
unfolding read_args
parse_args args = read_args (length args) args 1 (record { config_path = none; simulate = false })

-- The meaning of the arguments, one after the other: an independent description.
abbrev pub meaning : List String → Options → Options
meaning [] o = o
meaning (a ∷ []) o = if is_config a then o else set_flag a o
meaning (a ∷ b ∷ rest) o =
    let with_path = meaning rest (record o { config_path = some b }) in
    let without = meaning (b ∷ rest) (set_flag a o) in if is_config a then with_path else without

elem_drop : (i : ℕ) (args l : List String) → drop i args ≡ l → get_elem? args i ≡ get_elem? l 0
elem_drop zero args l e = ap (λ k. get_elem? k 0) e
elem_drop (suc i) [] l e = ap (λ k. get_elem? k 0) e
elem_drop (suc i) (x ∷ xs) l e = elem_drop i xs l e

drop-suc :
    (i : ℕ) (args : List String) (a : String) (l : List String)
    → drop i args ≡ a ∷ l
    → drop (suc i) args ≡ l
drop-suc zero [] a l e = absurd (grind arith)
drop-suc zero (x ∷ xs) a l e = grind arith
drop-suc (suc i) [] a l e = absurd (grind arith)
drop-suc (suc i) (x ∷ xs) a l e = drop-suc i xs a l e

read_args-meaning :
    (fuel : ℕ) (args : List String) (i : ℕ) (o : Options) (l : List String)
    → drop i args ≡ l
    → length l ≤ fuel
    → read_args fuel args i o ≡ meaning l o
unfolding read_args read_arg
read_args-meaning zero args i o [] e h = refl
read_args-meaning zero args i o (a ∷ l) e h = absurd (omega arith)
read_args-meaning (suc fuel) args i o [] e h = rw (elem_drop i args [] e, read_args) refl
read_args-meaning (suc fuel) args i o (a ∷ []) e h =
    let here = elem_drop i args (a ∷ []) e in
    let e' = drop-suc i args a [] e in
    let next = elem_drop (suc i) args [] e' in
    elim (Bool-cases (is_config a)) [
      | inl c ↦
          rw (here, c, next, read_args) (read_args-meaning fuel args (suc i) o [] e' (omega arith))
      | inr c ↦
          rw (here, c, read_args)
            (read_args-meaning fuel args (suc i) (set_flag a o) [] e' (omega arith))
    ]
read_args-meaning (suc fuel) args i o (a ∷ b ∷ l) e h =
    let here = elem_drop i args (a ∷ b ∷ l) e in
    let e' = drop-suc i args a (b ∷ l) e in
    let next = elem_drop (suc i) args (b ∷ l) e' in
    elim (Bool-cases (is_config a)) [
      | inl c ↦
          rw (here, c, next, read_args)
            (read_args-meaning fuel args (suc (suc i)) (record o { config_path = some b }) l
              (drop-suc (suc i) args b l e') (omega arith))
      | inr c ↦
          rw (here, c, read_args)
            (read_args-meaning fuel args (suc i) (set_flag a o) (b ∷ l) e' (omega arith))
    ]

-- The loop over a command line's arguments ends with the meaning of those behind the program's name:
-- each `--config` or `-c` takes the argument behind it as the path, whatever that is, the last such
-- path counts, one at the very end is ignored, as is every argument that is not known. As much fuel
-- as there are arguments is enough.
pub parse_args-meaning :
    (name : String) (args : List String)
    → parse_args (name ∷ args) ≡ meaning args (record { config_path = none; simulate = false })
unfolding parse_args
parse_args-meaning name args =
    read_args-meaning (length (name ∷ args)) (name ∷ args) 1 _ args refl (omega arith)
