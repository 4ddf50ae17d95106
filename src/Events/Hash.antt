-- ===== src/Events/Hash.antt =====
-- `fnv1a_64` of events.rs, and its children: the laws of exclusive or that its theorems need.
pub mod Xor
pub mod Collisions
use Prim.Native.Nat.{bit_xor}
use daemon_choir.Base.{ℕ, List, [], ◌∷◌, wrapping_mul}

abbrev pub offset_basis : ℕ
offset_basis = 0xcbf29ce484222325

abbrev pub prime : ℕ
prime = 0x100000001b3

-- one round of the loop
unfoldable pub fnv_round : ℕ → ℕ → ℕ
fnv_round hash b = wrapping_mul (bit_xor hash b) prime

-- the loop, from a hash so far
unfoldable pub fnv_from : ℕ → List ℕ → ℕ
unfolding fnv_round
fnv_from hash [] = hash
fnv_from hash (b ∷ bytes) = fnv_from (fnv_round hash b) bytes

unfoldable pub fnv1a_64 : List ℕ → ℕ
unfolding fnv_from
fnv1a_64 bytes = fnv_from offset_basis bytes
