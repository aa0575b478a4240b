-- ===== src/Tcp/Scubic/Root/Bounds.antt =====
-- How close `cubic_root` of src/tcp_scubic.c comes to the cube root, and that it never leaves its
-- table or divides by zero. The table is finite, so each of its entries is checked by evaluation.
use spine_kernel.Prelude.{
  ℕ, zero, suc, ◌+◌, ◌-◌, ◌*◌, ◌/◌, ◌%◌, ◌^◌, ◌≤◌, ◌<◌, ◌≡◌, refl, Bool, true, false, ◌&&◌, ◌||◌,
  some, inl, inr, ltb, leb, ◌==◌, get_or, leb→le, ltb→lt, ltb→le, &&_true, get_elem?-eq-get_or,
  Bool-cases, ==_iff, arith,
}
use native.Mathlib.Nat.{
  le-div_iff_mul-le, div-lt_iff_lt-mul, div-mul-le_self, le_trans, mul-le-mul, mul-pos, one-le-pow,
  lt-div-mul-add, lt_of_lt_of_le, lt_of_le_of_lt,
}
use spine_kernel.Tcp.Scubic.Root.{root_table, first_guess, newton, cubic_root}

-- What `fls64` is documented to return.
abbrev pub IsFls : (ℕ → ℕ) → Type 0
IsFls fls64 =
    (a : ℕ)
    → a < 2 ^ 64
    → (fls64 a ≤ 64) × (a < 2 ^ fls64 a) × (1 ≤ fls64 a → 2 ^ (fls64 a - 1) ≤ a)

-- A test passes at `count` places from `start` on, by evaluation.
passes : ℕ → ℕ → (ℕ → Bool) → Bool
passes start zero test = true
passes start (suc count) test = test start && passes (start + 1) count test

passes_at :
    (test : ℕ → Bool) (count start place : ℕ)
    → passes start count test ≡ true
    → start ≤ place
    → place < start + count
    → test place ≡ true
unfolding passes
passes_at test zero start place checked low high = absurd (omega arith)
passes_at test (suc count) start place checked low high =
    let (here, beyond) = &&_true (test start) (passes (start + 1) count test) checked in
    elim (Bool-cases (start == place)) [
      | inl found ↦ rw ((==_iff start place).0 found) at here
      | inr other ↦
          passes_at test count (start + 1) place beyond (ground (arith, other)) (omega arith)
    ]

passes_below :
    (count : ℕ) (test : ℕ → Bool) (place : ℕ)
    → passes 0 count test ≡ true
    → place < count
    → test place ≡ true
passes_below count test place checked high =
    passes_at test count 0 place checked (omega arith) (omega arith)

-- The scaled result of the step at the guess `x`.
abbrev step_sum : ℕ → ℕ → ℕ
step_sum a x = 2 * x + a / (x * (x - 1))

abbrev pub cube : ℕ → ℕ
cube r = r * r * r

-- The entry for the leading bits `s` at the scale `m`: the step neither divides by zero nor wraps, and
-- its result is close enough at both ends of the numbers that the entry serves.
abbrev entry_ok : ℕ → ℕ → ℕ → Bool
entry_ok x m s =
    let low = step_sum (s * m) x * 341 / 1024 in
    let top = step_sum ((s + 1) * m - 1) x in
    let high = top * 341 / 1024 in
    leb 2 x
    && (ltb (top * 341) (2 ^ 32)
        && (leb (3 * cube high) (4 * (s * m)) && leb (8 * ((s + 1) * m - 1)) (9 * cube (low + 1))))

abbrev guess : ℕ → ℕ → ℕ
guess b s = first_guess (get_or root_table s 0) b

-- Every entry, at every scale; those for numbers of more than 64 bits pass.
served : ℕ → ℕ → Bool
served b s = ltb s 8 || leb (2 ^ 64) (s * 2 ^ (b * 3)) || entry_ok (guess b s) (2 ^ (b * 3)) s

table_checked : passes 0 21 (λ b. b == 0 || passes 0 64 (λ s. served b s)) ≡ true
unfolding passes first_guess served
table_checked = refl

table_ok :
    (b s : ℕ)
    → 1 ≤ b
    → b < 21
    → 8 ≤ s
    → s < 64
    → s * 2 ^ (b * 3) < 2 ^ 64
    → entry_ok (guess b s) (2 ^ (b * 3)) s ≡ true
unfolding served
table_ok b s b1 b2 s1 s2 small =
    let row : (b == 0 || passes 0 64 (λ s. served b s)) ≡ true =
      passes_below 21 (λ b. b == 0 || passes 0 64 (λ s. served b s)) b table_checked b2 in
    let some_b : (b == 0) ≡ false = ground arith in
    let row' : passes 0 64 (λ s. served b s) ≡ true = rw some_b at row in
    let entry : served b s ≡ true = passes_below 64 (λ s. served b s) s row' s2 in
    let big : ltb s 8 ≡ false = ground arith in
    let fits : leb (2 ^ 64) (s * 2 ^ (b * 3)) ≡ false = ground arith in rw (big, fits) at entry

-- The scale for each number of bits.
scale_ok : ℕ → Bool
scale_ok f =
    let b = f * 84 / 256 - 1 in
    leb 1 b
    && (ltb b 21
        && (leb (2 ^ f) (64 * 2 ^ (b * 3))
            && (leb (8 * 2 ^ (b * 3)) (2 ^ (f - 1)) && leb 64 (2 ^ (f - 1)))))

scales_checked : passes 0 65 (λ f. ltb f 7 || scale_ok f) ≡ true
unfolding passes scale_ok
scales_checked = refl

step_mono : (a a' x : ℕ) → 2 ≤ x → a ≤ a' → step_sum a x ≤ step_sum a' x
step_mono a a' x h le =
    let positive : 0 < x * (x - 1) = mul-pos (omega arith) (omega arith) in
    let below : a / (x * (x - 1)) ≤ a' / (x * (x - 1)) =
      (le-div_iff_mul-le positive).1 (le_trans (div-mul-le_self a (x * (x - 1))) le) in
    omega (arith, below)

cube_mono : (r r' : ℕ) → r ≤ r' → cube r ≤ cube r'
cube_mono r r' h = mul-le-mul (mul-le-mul h h) h

-- What the entry for a number promises.
entry_facts :
    (x m s : ℕ)
    → entry_ok x m s ≡ true
    → (2 ≤ x)
      × (step_sum ((s + 1) * m - 1) x * 341 < 2 ^ 32)
      × (3 * cube (step_sum ((s + 1) * m - 1) x * 341 / 1024) ≤ 4 * (s * m))
      × (8 * ((s + 1) * m - 1) ≤ 9 * cube (step_sum (s * m) x * 341 / 1024 + 1))
entry_facts x m s ok =
    let (p, rest) = &&_true _ _ ok in
    let (q, rest') = &&_true _ _ rest in
    let (r, t) = &&_true _ _ rest' in (leb→le _ _ p, ltb→lt _ _ q, leb→le _ _ r, leb→le _ _ t)

-- The step stays in its words, and is close, for each number that the entry serves.
newton_close :
    (a x m s : ℕ)
    → entry_ok x m s ≡ true
    → s * m ≤ a
    → a ≤ (s + 1) * m - 1
    → (r : ℕ) × (newton a x ≡ some r) × (3 * cube r ≤ 4 * a) × (8 * a ≤ 9 * cube (r + 1))
unfolding newton
newton_close a x m s ok from to =
    let (two, word, high, low) = entry_facts x m s ok in
    let d = x * (x - 1) in
    let positive : 0 < d = mul-pos (omega arith) (omega arith) in
    let some_d : (d == 0) ≡ false = ground arith in
    let up = step_mono a ((s + 1) * m - 1) x two to in
    let down = step_mono (s * m) a x two from in
    let y = step_sum a x in
    let r = y * 341 / 1024 in
    let exact : (2 * x + a / d % 2 ^ 32) % 2 ^ 32 * 341 % 2 ^ 32 / 1024 ≡ r =
      omega (arith, word, up) in
    (
      r,
      rw (some_d, exact) refl,
      omega (
        arith,
        high,
        from,
        cube_mono r (step_sum ((s + 1) * m - 1) x * 341 / 1024) (omega (arith, up)),
      ),
      omega (
        arith,
        low,
        to,
        cube_mono (step_sum (s * m) x * 341 / 1024 + 1) (r + 1) (omega (arith, down)),
      ),
    )

-- The scale puts the leading bits of a number of `f` bits into the table.
scale_facts :
    (f : ℕ)
    → f ≤ 64
    → 7 ≤ f
    → let b = f * 84 / 256 - 1 in
      (1 ≤ b)
      × (b < 21)
      × (2 ^ f ≤ 64 * 2 ^ (b * 3))
      × (8 * 2 ^ (b * 3) ≤ 2 ^ (f - 1))
      × (64 ≤ 2 ^ (f - 1))
unfolding scale_ok
scale_facts f most least =
    let row : (ltb f 7 || scale_ok f) ≡ true =
      passes_below 65 (λ f. ltb f 7 || scale_ok f) f scales_checked (omega arith) in
    let big : ltb f 7 ≡ false = ground arith in
    let ok : scale_ok f ≡ true = rw big at row in
    let (p, rest) = &&_true _ _ ok in
    let (q, rest') = &&_true _ _ rest in
    let (r, rest'') = &&_true _ _ rest' in
    let (t, u) = &&_true _ _ rest'' in
    (leb→le _ _ p, ltb→lt _ _ q, leb→le _ _ r, leb→le _ _ t, leb→le _ _ u)

small_ok : ℕ → Bool
small_ok a =
    let r = (get_or root_table a 0 + 35) / 64 in
    leb (cube r) (2 * a) && leb (8 * a) (9 * cube (r + 1))

small_checked : (passes 0 64 small_ok ≡ true) × (passes 0 7 (λ f. leb (2 ^ f) 64) ≡ true)
unfolding passes small_ok
small_checked = (refl, refl)

small_facts :
    (a : ℕ)
    → a < 64
    → let r = (get_or root_table a 0 + 35) / 64 in (cube r ≤ 2 * a) × (8 * a ≤ 9 * cube (r + 1))
unfolding small_ok
small_facts a h =
    let (p, q) = &&_true _ _ (passes_below 64 small_ok a small_checked.0 h) in
    (leb→le _ _ p, leb→le _ _ q)

-- For every 64-bit number `cubic_root` stays inside its table, divides by no zero and wraps nowhere,
-- and its result r is close to the cube root: a ≤ 9/8 (r + 1)³, and r³ ≤ 4/3 a, for a number below 64
-- r³ ≤ 2a.
pub cubic_root_close :
    (fls64 : ℕ → ℕ) (a : ℕ)
    → IsFls fls64
    → a < 2 ^ 64
    → (r : ℕ) × (cubic_root fls64 a ≡ some r)
      × (8 * a ≤ 9 * cube (r + 1))
      × (64 ≤ a → 3 * cube r ≤ 4 * a)
      × (cube r ≤ 2 * a)
unfolding cubic_root
cubic_root_close fls64 a spec word = elim (Bool-cases (ltb (fls64 a) 7)) [
  | inl few ↦
      let power : 2 ^ fls64 a ≤ 64 =
        leb→le _ _
          (passes_below 7 (λ f. leb (2 ^ f) 64) (fls64 a) small_checked.1 (ltb→lt _ _ few)) in
      let small : a < 64 = lt_of_lt_of_le (spec a word).1 power in
      let (high, low) = small_facts a small in
      (
        (get_or root_table a 0 + 35) / 64,
        rw (few, get_elem?-eq-get_or root_table a 0 small) refl,
        low,
        λ big. absurd (omega arith),
        high,
      )
  | inr many ↦
      let f = fls64 a in
      let b = f * 84 / 256 - 1 in
      let m = 2 ^ (b * 3) in
      let (most, top, bottom) = spec a word in
      let seven : 7 ≤ f = ltb→le f 7 many in
      let (b1, b2, fit, lead, big) = scale_facts f most seven in
      let positive : 0 < m = one-le-pow (b * 3) 2 (omega arith) in
      let s = a / m in
      let s2 : s < 64 = (div-lt_iff_lt-mul positive).1 (lt_of_lt_of_le top fit) in
      let s1 : 8 ≤ s = (le-div_iff_mul-le positive).1 (le_trans lead (bottom (omega arith))) in
      let from : s * m ≤ a = div-mul-le_self a m in
      let to : a < s * m + m = lt-div-mul-add positive in
      let entry = table_ok b s b1 b2 s1 s2 (lt_of_le_of_lt from word) in
      let (r, run, high, low) = newton_close a (guess b s) m s entry from (omega (arith, to)) in
      (r, rw (many, get_elem?-eq-get_or root_table s 0 s2) run, low, λ _. high, omega (arith, high))
]
