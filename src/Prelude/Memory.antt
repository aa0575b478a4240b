-- ===== src/Prelude/Memory.antt =====
-- Memory as lists of bytes: little-endian fields, and `memcpy` into and out of a buffer. The
-- hosts of the kernel module (x86-64) are little-endian.
use Prim.Native.Nat.{ℕ, zero, suc, ◌+◌, ◌*◌, ◌/◌, ◌%◌, ◌^◌, ◌≤◌, ◌<◌}
use mathlib.Core.Path.{◌≡◌, refl, ap}
use mathlib.Core.List.{List, [], ◌∷◌, ◌++◌}
use mathlib.Core.Option.{Option, none, some}
use native.Mathlib.Nat.{pow-suc}
use native.Mathlib.Omega.{arith}
use spine_kernel.Prelude.Lists.{length, drop}

abbrev pub Bytes : Type 0
Bytes = List ℕ

-- The `w` bytes of a number, lowest first.
unfoldable pub le_bytes : ℕ → ℕ → Bytes
le_bytes zero v = []
le_bytes (suc w) v = (v % 256) ∷ le_bytes w (v / 256)

-- The first `w` bytes as a number, and the bytes behind them; `none` past the end.
unfoldable pub read_le : ℕ → Bytes → Option (ℕ × Bytes)
read_le zero bs = some (0, bs)
read_le (suc w) [] = none
read_le (suc w) (b ∷ bs) = elim (read_le w bs) [
  | none ↦ none
  | some (v, rest) ↦ some (b + 256 * v, rest)
]

-- `memcpy(buf, src, length src)`, inside the buffer.
unfoldable pub overwrite : Bytes → Bytes → Option Bytes
overwrite [] buf = some buf
overwrite (x ∷ src) [] = none
overwrite (x ∷ src) (b ∷ buf) = elim (overwrite src buf) [ none ↦ none | some r ↦ some (x ∷ r) ]

-- `memcpy(buf + offset, src, length src)`.
unfoldable pub store : ℕ → Bytes → Bytes → Option Bytes
unfolding overwrite
store zero src buf = overwrite src buf
store (suc k) src [] = none
store (suc k) src (b ∷ buf) = elim (store k src buf) [ none ↦ none | some r ↦ some (b ∷ r) ]

pub length-le_bytes : (w v : ℕ) → length (le_bytes w v) ≡ w
unfolding le_bytes
length-le_bytes zero v = refl
length-le_bytes (suc w) v = ap suc (length-le_bytes w (v / 256))

quotient_bound : (w v : ℕ) → v < 256 ^ suc w → v / 256 < 256 ^ w
quotient_bound w v h = omega (arith, pow-suc 256 w)

pub read_le-le_bytes :
    (w v : ℕ) (rest : Bytes) → v < 256 ^ w → read_le w (le_bytes w v ++ rest) ≡ some (v, rest)
unfolding read_le le_bytes
read_le-le_bytes zero v rest h = ground arith
read_le-le_bytes (suc w) v rest h =
    ground (arith, read_le-le_bytes w (v / 256) rest (quotient_bound w v h))

pub overwrite_lem :
    (src buf : Bytes)
    → length src ≤ length buf
    → overwrite src buf ≡ some (src ++ drop (length src) buf)
unfolding overwrite
overwrite_lem [] buf h = refl
overwrite_lem (x ∷ src) [] h = absurd (omega arith)
overwrite_lem (x ∷ src) (b ∷ buf) h = rw (overwrite_lem src buf (omega arith))

pub store-append :
    (pre src buf : Bytes)
    → length src ≤ length buf
    → store (length pre) src (pre ++ buf) ≡ some (pre ++ (src ++ drop (length src) buf))
unfolding store
store-append [] src buf h = overwrite_lem src buf h
store-append (x ∷ pre) src buf h = rw (store-append pre src buf h)
