-- ===== src/Tcp/Scubic/Root.antt =====
-- `cubic_root` of src/tcp_scubic.c: a table look-up and one Newton-Raphson step.
pub mod Bounds
use spine_kernel.Prelude.{
  ℕ, ◌+◌, ◌-◌, ◌*◌, ◌/◌, ◌%◌, ◌^◌, Option, none, some, List, [], ◌∷◌, ltb, ◌==◌, if◌then◌else◌,
  ◌>>=◌, get_elem?,
}

-- The table `v`.
abbrev pub root_table : List ℕ
root_table =
    0 ∷ 54 ∷ 54 ∷ 54 ∷ 118 ∷ 118 ∷ 118 ∷ 118 ∷ 123 ∷ 129 ∷ 134 ∷ 138 ∷ 143 ∷ 147 ∷ 151 ∷ 156 ∷ 157
    ∷ 161 ∷ 164 ∷ 168 ∷ 170 ∷ 173 ∷ 176 ∷ 179 ∷ 181 ∷ 185 ∷ 187 ∷ 190 ∷ 192 ∷ 194 ∷ 197 ∷ 199 ∷ 200
    ∷ 202 ∷ 204 ∷ 206 ∷ 209 ∷ 211 ∷ 213 ∷ 215 ∷ 217 ∷ 219 ∷ 221 ∷ 222 ∷ 224 ∷ 225 ∷ 227 ∷ 229 ∷ 231
    ∷ 232 ∷ 234 ∷ 236 ∷ 237 ∷ 239 ∷ 240 ∷ 242 ∷ 244 ∷ 245 ∷ 246 ∷ 248 ∷ 250 ∷ 251 ∷ 252 ∷ 254 ∷ []

-- The start of the iteration, from the entry `v` for the leading bits.
unfoldable pub first_guess : ℕ → ℕ → ℕ
first_guess v b = (v + 10) * 2 ^ b % 2 ^ 32 / 64

-- The Newton-Raphson step; a division by 0 is a fault.
unfoldable pub newton : ℕ → ℕ → Option ℕ
newton a x =
    if x * (x - 1) == 0
    then none
    else some ((2 * x + a / (x * (x - 1)) % 2 ^ 32) % 2 ^ 32 * 341 % 2 ^ 32 / 1024)

-- `fls64 a` is the number of bits of `a`.
unfoldable pub cubic_root : (ℕ → ℕ) → ℕ → Option ℕ
cubic_root fls64 a =
    if ltb (fls64 a) 7 then (do v ← get_elem? root_table a; some ((v + 35) / 64)) else do
      let b = fls64 a * 84 / 256 - 1
      v ← get_elem? root_table (a / 2 ^ (b * 3))
      newton a (first_guess v b)
