-- ===== src/Events/Hash/Collisions.antt =====
-- What the hash of events.rs tells apart.
use daemon_choir.Base.{
  ℕ, List, [], ◌∷◌, ◌++◌, ◌^◌, ◌<◌, ◌≡◌, refl, sym, ap, ◌∙◌, arith, wrapping_mul, All,
}
use Prim.Native.Nat.{bit_xor}
use daemon_choir.Events.Hash.{prime, offset_basis, fnv_round, fnv_from, fnv1a_64}
use daemon_choir.Events.Hash.Xor.{bit_xor_undo, bit_xor-lt, bit_xor_comm}

-- The inverse of the prime modulo 2^64.
abbrev inverse : ℕ
inverse = 0xce965057aff6957b

wrapping_mul_undo : (x : ℕ) → x < 2 ^ 64 → wrapping_mul (wrapping_mul x prime) inverse ≡ x
wrapping_mul_undo x h = omega arith

fnv_round-lt : (h b : ℕ) → fnv_round h b < 2 ^ 64
unfolding fnv_round
fnv_round-lt h b = omega arith

pub fnv_from-lt : (bytes : List ℕ) (h : ℕ) → h < 2 ^ 64 → fnv_from h bytes < 2 ^ 64
unfolding fnv_from
fnv_from-lt [] h lt = lt
fnv_from-lt (b ∷ bytes) h lt = fnv_from-lt bytes (fnv_round h b) (fnv_round-lt h b)

-- What went into the multiplication of a round is determined by what came out.
fnv_round_mixed :
    (g h a b : ℕ)
    → g < 2 ^ 64
    → h < 2 ^ 64
    → a < 256
    → b < 256
    → fnv_round g a ≡ fnv_round h b
    → bit_xor g a ≡ bit_xor h b
unfolding fnv_round
fnv_round_mixed g h a b lg lh la lb e =
    sym (wrapping_mul_undo (bit_xor g a) (bit_xor-lt 64 g a lg (omega arith)))
    ∙ ap (λ x. wrapping_mul x inverse) e
    ∙ wrapping_mul_undo (bit_xor h b) (bit_xor-lt 64 h b lh (omega arith))

-- So is the state before it, given the byte,
fnv_round_state :
    (g h b : ℕ) → g < 2 ^ 64 → h < 2 ^ 64 → b < 256 → fnv_round g b ≡ fnv_round h b → g ≡ h
fnv_round_state g h b lg lh lb e =
    sym (bit_xor_undo g b)
    ∙ ap (λ x. bit_xor x b) (fnv_round_mixed g h b b lg lh lb lb e)
    ∙ bit_xor_undo h b

-- and the byte, given the state.
fnv_round_byte :
    (h a b : ℕ) → h < 2 ^ 64 → a < 256 → b < 256 → fnv_round h a ≡ fnv_round h b → a ≡ b
fnv_round_byte h a b lh la lb e =
    sym (bit_xor_undo a h)
    ∙ ap (λ x. bit_xor x h)
        (bit_xor_comm a h ∙ fnv_round_mixed h h a b lh lh la lb e ∙ bit_xor_comm h b)
    ∙ bit_xor_undo b h

abbrev pub IsByte : ℕ → Type 0
IsByte b = b < 256

fnv_from_state :
    (bytes : List ℕ) (g h : ℕ)
    → All IsByte bytes
    → g < 2 ^ 64
    → h < 2 ^ 64
    → fnv_from g bytes ≡ fnv_from h bytes
    → g ≡ h
unfolding fnv_from
fnv_from_state [] g h _ lg lh e = e
fnv_from_state (b ∷ bytes) g h (p, ps) lg lh e = fnv_round_state g h b lg lh p (
    fnv_from_state bytes (fnv_round g b) (fnv_round h b) ps (fnv_round-lt g b) (fnv_round-lt h b) e)

fnv_from-append : (xs ys : List ℕ) (h : ℕ) → fnv_from h (xs ++ ys) ≡ fnv_from (fnv_from h xs) ys
unfolding fnv_from
fnv_from-append [] ys h = refl
fnv_from-append (x ∷ xs) ys h = fnv_from-append xs ys (fnv_round h x)

-- Two byte strings that differ in one byte only never have the same hash: if the hashes are equal,
-- so are the bytes.
pub fnv1a_64_one_byte :
    (before after : List ℕ) (a b : ℕ)
    → All IsByte after
    → a < 256
    → b < 256
    → fnv1a_64 (before ++ (a ∷ after)) ≡ fnv1a_64 (before ++ (b ∷ after))
    → a ≡ b
unfolding fnv1a_64
fnv1a_64_one_byte before after a b ps la lb e =
    let h = fnv_from offset_basis before in
    let lt = fnv_from-lt before offset_basis (omega arith) in
    fnv_round_byte h a b lt la lb (
      fnv_from_state after (fnv_round h a) (fnv_round h b) ps (fnv_round-lt h a) (fnv_round-lt h b)
        (sym (fnv_from-append before (a ∷ after) offset_basis)
          ∙ e
          ∙ fnv_from-append before (b ∷ after) offset_basis))
