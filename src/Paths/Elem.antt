-- ===== src/Paths/Elem.antt =====
-- `skipelem` of FileSystem-RAID/kernel/fs.c.
use xv6_kernel_extensions.Prelude.{
  ℕ, zero, suc, ◌+◌, ◌-◌, ◌<◌, ◌≤◌, Bool, true, false, not, Option, none, some, ◌==◌, ltb, leb,
  ◌&&◌, update_ne, update_self, ◌≡◌, ◌≢◌, ap, ◌∙◌, subst, arith, inl, inr, ◌⊎◌, Bool-cases,
}
use native.Mathlib.Decide.{ℕ_discrete}
use xv6_kernel_extensions.Strings.{Memory}
use xv6_kernel_extensions.Paths.{skip_slashes, skip_name, put_name, skipelem}
use xv6_kernel_extensions.Vm.Copy.{move_bytes}
use xv6_kernel_extensions.Vm.Transfer.{move_bytes-in, move_bytes-out}

-- Every byte from `a` up to `b` passes a test, and the one at `b` does not.
abbrev Span : (ℕ → Bool) → Memory → ℕ → ℕ → Type 0
Span test mem a b =
    (a ≤ b) × ((x : ℕ) → a ≤ x → x < b → test (mem x) ≡ true) × (test (mem b) ≡ false)

abbrev pub is_slash : ℕ → Bool
is_slash ch = ch == 47

abbrev pub is_name : ℕ → Bool
is_name ch = not (ch == 47) && not (ch == 0)

-- A byte that ends both loops lies at `z`.
skip_slashes-Span :
    (fuel : ℕ) (mem : Memory) (p z : ℕ)
    → p ≤ z
    → z < p + fuel
    → mem z ≡ 0
    → Span is_slash mem p (skip_slashes fuel mem p) × (skip_slashes fuel mem p ≤ z)
unfolding skip_slashes
skip_slashes-Span zero mem p z h l e = absurd (omega arith)
skip_slashes-Span (suc fuel) mem p z h l e = elim (Bool-cases (mem p == 47)) [
  | inr d ↦ rw d ((omega arith, λ x a b. absurd (omega arith), d), h)
  | inl d ↦
      let ne : p ≢ z = λ q. (let f : mem p ≡ 0 = ap mem q ∙ e in ground arith) in
      let ((a, b, c), k) = skip_slashes-Span fuel mem (p + 1) z (omega arith) (omega arith) e in
      rw d (
        (
          omega arith,
          λ x g i. elim (Bool-cases (ltb p x)) [
            | inl j ↦ b x (ground arith) i
            | inr j ↦ ap (λ y. mem y == 47) (ground arith) ∙ d
          ],
          c,
        ),
        k,
      )
]

skip_name-Span :
    (fuel : ℕ) (mem : Memory) (p z : ℕ)
    → p ≤ z
    → z < p + fuel
    → mem z ≡ 0
    → Span is_name mem p (skip_name fuel mem p) × (skip_name fuel mem p ≤ z)
unfolding skip_name
skip_name-Span zero mem p z h l e = absurd (omega arith)
skip_name-Span (suc fuel) mem p z h l e = elim (Bool-cases (is_name (mem p))) [
  | inr d ↦ rw d ((omega arith, λ x a b. absurd (omega arith), d), h)
  | inl d ↦
      let ne : p ≢ z = λ q. (let f : mem p ≡ 0 = ap mem q ∙ e in ground arith) in
      let ((a, b, c), k) = skip_name-Span fuel mem (p + 1) z (omega arith) (omega arith) e in
      rw d (
        (
          omega arith,
          λ x g i. elim (Bool-cases (ltb p x)) [
            | inl j ↦ b x (ground arith) i
            | inr j ↦ ap (λ y. is_name (mem y)) (ground arith) ∙ d
          ],
          c,
        ),
        k,
      )
]

-- What `skipelem` finds: after slashes the zero byte, and nothing; or, from `s` up to `end`, the
-- first element, of which at most 14 bytes are the name, and after it slashes up to the path that is
-- left. The other bytes of the name's buffer are as before.
abbrev pub Element : Memory → ℕ → Memory → Option (ℕ × Memory) → Type 0
Element mem path name none =
    (s : ℕ) × (path ≤ s) × ((x : ℕ) → path ≤ x → x < s → mem x ≡ 47) × (mem s ≡ 0)
Element mem path name (some (path', name')) =
    (s : ℕ) × (end : ℕ) × (path ≤ s)
    × (s < end)
    × (end ≤ path')
    × ((x : ℕ) → path ≤ x → x < s → mem x ≡ 47)
    × ((x : ℕ) → s ≤ x → x < end → (mem x ≢ 47) × (mem x ≢ 0))
    × ((x : ℕ) → end ≤ x → x < path' → mem x ≡ 47)
    × (mem path' ≢ 47)
    × ((end < path') ⊎ (mem end ≡ 0))
    × ((i : ℕ) → i < end - s → i < 14 → name' i ≡ mem (s + i))
    × (end - s < 14 → name' (end - s) ≡ 0)
    × ((i : ℕ) → (14 ≤ i) ⊎ (end - s < i) → name' i ≡ name i)

move_bytes-start :
    (n s i : ℕ) (mem name : Memory) → i < n → move_bytes n 0 s mem name i ≡ mem (s + i)
move_bytes-start n s i mem name h =
    subst (λ x. move_bytes n 0 s mem name x ≡ mem (s + i)) (omega arith)
      (move_bytes-in n 0 s i mem name h)

put_name-bytes :
    (mem name : Memory) (s len i : ℕ) → i < len → i < 14 → put_name mem s len name i ≡ mem (s + i)
unfolding put_name
put_name-bytes mem name s len i h l = elim (Bool-cases (leb 14 len)) [
  | inl e ↦ rw e (move_bytes-start 14 s i mem name l)
  | inr e ↦ rw e (
      update_ne (move_bytes len 0 s mem name) len i 0 (omega arith)
      ∙ move_bytes-start len s i mem name h)
]

put_name-zero : (mem name : Memory) (s len : ℕ) → len < 14 → put_name mem s len name len ≡ 0
unfolding put_name
put_name-zero mem name s len h =
    let e : leb 14 len ≡ false = ground arith in
    rw e (update_self (move_bytes len 0 s mem name) len 0)

put_name-frame :
    (mem name : Memory) (s len i : ℕ) → (14 ≤ i) ⊎ (len < i) → put_name mem s len name i ≡ name i
unfolding put_name
put_name-frame mem name s len i h = elim (Bool-cases (leb 14 len)) [
  | inl e ↦ rw e (move_bytes-out 14 0 s i mem name (inr (ground arith)))
  | inr e ↦ rw e (
      update_ne (move_bytes len 0 s mem name) len i 0 (ground arith)
      ∙ move_bytes-out len 0 s i mem name (inr (ground arith)))
]

-- If the string at `path` ends within 128 bytes, then `skipelem` returns none exactly where it has
-- only slashes; otherwise the first element after the slashes is in the name, cut to 14 bytes, and
-- ended by a zero byte if it is shorter, no other byte of the name's buffer is changed, and the path
-- that is returned is behind the slashes that follow.
pub skipelem-Element :
    (mem : Memory) (path z : ℕ) (name : Memory)
    → path ≤ z
    → z < path + 128
    → mem z ≡ 0
    → Element mem path name (skipelem mem path name)
unfolding skipelem
skipelem-Element mem path z name h l e =
    let s = skip_slashes 128 mem path in
    let ((a, b, c), k) = skip_slashes-Span 128 mem path z h l e in
    let ((a', b', c'), k') = skip_name-Span 128 mem s z k (omega arith) e in
    let end = skip_name 128 mem s in
    let ((a'', b'', c''), k'') = skip_slashes-Span 128 mem end z k' (omega arith) e in
    let p = skip_slashes 128 mem end in
    elim (Bool-cases (mem s == 0)) [
      | inl d ↦ rw d (s, a, (λ x g i. (let t = b x g i in ground arith)), ground arith)
      | inr d ↦
          let named : is_name (mem s) ≡ true = ground arith in
          let lt : s < end = elim (ℕ_discrete s end) [
            | yes q ↦
                let t : is_name (mem s) ≡ false = ap (λ x. is_name (mem x)) q ∙ c' in absurd (cc)
            | no q ↦ omega (arith, a', q)
          ] in
          let stop : (end < p) ⊎ (mem end ≡ 0) = elim (Bool-cases (mem end == 0)) [
            | inl f ↦ inr (ground arith)
            | inr f ↦
                let t : is_slash (mem end) ≡ true = ground arith in
                elim (ℕ_discrete end p) [
                  | yes q ↦
                      let v : is_slash (mem end) ≡ false = ap (λ x. is_slash (mem x)) q ∙ c'' in
                      absurd (cc)
                  | no q ↦ inl (omega (arith, a'', q))
                ]
          ] in
          rw d (
            s,
            end,
            a,
            lt,
            a'',
            (λ x g i. (let t = b x g i in ground arith)),
            (λ x g i. (let t = b' x g i in (ground arith, ground arith))),
            (λ x g i. (let t = b'' x g i in ground arith)),
            ground arith,
            stop,
            (λ i g j. put_name-bytes mem name s (end - s) i g j),
            (λ g. put_name-zero mem name s (end - s) g),
            (λ i g. put_name-frame mem name s (end - s) i g),
          )
    ]
