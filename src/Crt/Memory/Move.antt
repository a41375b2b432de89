-- ===== src/Crt/Memory/Move.antt =====
-- `memcpy` of lib/crt/memcpy.c copies regions that overlap, too.
use etaos.Prelude.{
  ℕ, zero, suc, ◌+◌, ◌-◌, ◌*◌, ◌/◌, ◌%◌, ◌≤◌, ◌≡◌, sym, ap, ◌∙◌, Bool, ◌&&◌, ◌||◌, if◌then◌else◌,
  ◌==◌, ltb, leb, arith, inl, inr, Bool-cases, fun_ext,
}
use etaos.Crt.Memory.{
  Bytes, wsize, copy_word, copy_up, copy_down, lead_up, lead_down, forwards, backwards, memcpy,
}

-- Two words one behind the other are one word.
join_up :
    (j k dst src : ℕ) (m : Bytes)
    → dst ≤ src
    → copy_word j (dst + k) (src + k) (copy_word k dst src m) ≡ copy_word (k + j) dst src m
join_up j k dst src m h = fun_ext λ a. elim (Bool-cases (leb (dst + k) a)) [
  | inl y ↦
      let shift : src + k + (a - (dst + k)) ≡ src + (a - dst) = ground arith in
      ground (arith, ap m shift)
  | inr x ↦ ground arith
]

join_down :
    (j k dst src : ℕ) (m : Bytes)
    → src ≤ dst
    → copy_word j dst src (copy_word k (dst + j) (src + j) m) ≡ copy_word (j + k) dst src m
join_down j k dst src m h = fun_ext λ a. elim (Bool-cases (leb (dst + j) a)) [
  | inl y ↦
      let shift : src + j + (a - (dst + j)) ≡ src + (a - dst) = ground arith in
      ground (arith, ap m shift)
  | inr x ↦ ground arith
]

no_word : (dst src : ℕ) (m : Bytes) → copy_word 0 dst src m ≡ m
no_word dst src m = fun_ext λ a. ground arith

copy_up_lem :
    (k t dst src : ℕ) (m : Bytes) → dst ≤ src → copy_up k t dst src m ≡ copy_word (t * k) dst src m
unfolding copy_up
copy_up_lem k zero dst src m h =
    sym (no_word dst src m) ∙ ap (λ n. copy_word n dst src m) (omega arith)
copy_up_lem k (suc t) dst src m h =
    copy_up_lem k t (dst + k) (src + k) (copy_word k dst src m) (omega (arith, h))
    ∙ join_up (t * k) k dst src m h
    ∙ ap (λ n. copy_word n dst src m) (omega arith)

copy_down_lem :
    (k t dst src : ℕ) (m : Bytes)
    → src ≤ dst
    → copy_down k t (dst + t * k) (src + t * k) m ≡ copy_word (t * k) dst src m
unfolding copy_down
copy_down_lem k zero dst src m h =
    sym (no_word dst src m) ∙ ap (λ n. copy_word n dst src m) (omega arith)
copy_down_lem k (suc t) dst src m h =
    let step : (x : ℕ) → x + suc t * k - k ≡ x + t * k = λ x. omega arith in
    let m' : Bytes → ℕ → ℕ → Bytes = λ b d e. copy_down k t d e (copy_word k d e b) in
    ap (λ d. m' m d (src + suc t * k - k)) (step dst)
    ∙ ap (λ e. m' m (dst + t * k) e) (step src)
    ∙ copy_down_lem k t dst src (copy_word k (dst + t * k) (src + t * k) m) h
    ∙ join_down (t * k) k dst src m h
    ∙ ap (λ n. copy_word n dst src m) (omega arith)

-- One way of copying with the numbers of bytes and words as they come.
down :
    (k t dst src d e : ℕ) (m : Bytes)
    → src ≤ dst
    → d ≡ dst + t * k
    → e ≡ src + t * k
    → copy_down k t d e m ≡ copy_word (t * k) dst src m
down k t dst src d e m h p q =
    ap (λ x. copy_down k t x e m) p
    ∙ ap (λ x. copy_down k t (dst + t * k) x m) q
    ∙ copy_down_lem k t dst src m h

lead_up_le : (dst src n : ℕ) → lead_up dst src n ≤ n
unfolding lead_up
lead_up_le dst src n = ground arith

lead_down_le : (dst src n : ℕ) → lead_down dst src n ≤ n
unfolding lead_down
lead_down_le dst src n = ground arith

forwards_word :
    (dst src n : ℕ) (m : Bytes) → dst ≤ src → forwards dst src n m ≡ copy_word n dst src m
unfolding forwards
forwards_word dst src n m h =
    let t = lead_up dst src n in
    let w = (n - t) / wsize in
    let r = (n - t) % wsize in
    let all = t + w * wsize in
    let fits = lead_up_le dst src n in
    let one : (x : ℕ) → x * 1 ≡ x = λ x. omega arith in
    let words : Bytes → Bytes = λ b. copy_up wsize w (dst + t) (src + t) b in
    let bytes : Bytes → Bytes = λ b. copy_up 1 r (dst + all) (src + all) b in
    ap (λ b. bytes (words b))
      (copy_up_lem 1 t dst src m h ∙ ap (λ x. copy_word x dst src m) (one t))
    ∙ ap bytes (
        copy_up_lem wsize w (dst + t) (src + t) (copy_word t dst src m) (omega (arith, h))
        ∙ join_up (w * wsize) t dst src m h)
    ∙ copy_up_lem 1 r (dst + all) (src + all) (copy_word all dst src m) (omega (arith, h))
    ∙ join_up (r * 1) all dst src m h
    ∙ ap (λ x. copy_word x dst src m) (omega (arith, fits))

backwards_word :
    (dst src n : ℕ) (m : Bytes) → src ≤ dst → backwards dst src n m ≡ copy_word n dst src m
unfolding backwards
backwards_word dst src n m h =
    let t = lead_down (dst + n) (src + n) n in
    let w = (n - t) / wsize in
    let r = (n - t) % wsize in
    let low = n - t in
    let fits = lead_down_le (dst + n) (src + n) n in
    let words : Bytes → Bytes = λ b. copy_down wsize w (dst + low) (src + low) b in
    let bytes : Bytes → Bytes = λ b. copy_down 1 r (dst + r) (src + r) b in
    let top = copy_word (t * 1) (dst + low) (src + low) m in
    ap (λ b. bytes (words b))
      (down 1 t (dst + low) (src + low) (dst + n) (src + n) m (omega (arith, h))
        (omega (arith, fits)) (omega (arith, fits)))
    ∙ ap bytes (
        down wsize w (dst + r) (src + r) (dst + low) (src + low) top (omega (arith, h))
          (omega arith) (omega arith))
    ∙ down 1 r dst src (dst + r) (src + r) (copy_word (w * wsize) (dst + r) (src + r) top) h
        (omega arith) (omega arith)
    ∙ ap (λ x. copy_word x dst src (copy_word (w * wsize) (dst + r) (src + r) top)) (omega arith)
    ∙ join_down r (w * wsize) dst src top h
    ∙ ap (λ x. copy_word x dst src top) (omega arith)
    ∙ join_down low (t * 1) dst src m h
    ∙ ap (λ x. copy_word x dst src m) (omega (arith, fits))

same_place : (dst n : ℕ) (m : Bytes) → m ≡ copy_word n dst dst m
same_place dst n m = fun_ext λ a. elim (Bool-cases (leb dst a)) [
  | inl y ↦ let there : dst + (a - dst) ≡ a = ground arith in ground (arith, ap m there)
  | inr x ↦ ground arith
]

memcpy_word : (dst src n : ℕ) (m : Bytes) → memcpy dst src n m ≡ copy_word n dst src m
unfolding memcpy
memcpy_word dst src n m =
    let up = forwards dst src n m in
    let low = backwards dst src n m in
    let pick : Bool → Bytes = λ b. if b then up else low in
    let test : Bool → Bytes = λ b. if b then m else pick (ltb dst src) in
    elim (Bool-cases (n == 0)) [
      | inl z ↦
          ap (λ b. test (b || (dst == src))) z
          ∙ sym (no_word dst src m)
          ∙ ap (λ x. copy_word x dst src m) (ground arith)
      | inr nz ↦ elim (Bool-cases (dst == src)) [
        | inl e ↦
            let eq : dst ≡ src = ground arith in
            ap (λ b. test (b || (dst == src))) nz
            ∙ ap test e
            ∙ same_place dst n m
            ∙ ap (λ s. copy_word n dst s m) eq
        | inr ne ↦
            ap (λ b. test (b || (dst == src))) nz ∙ ap test ne ∙ elim (Bool-cases (ltb dst src)) [
              | inl y ↦ ap pick y ∙ forwards_word dst src n m (ground arith)
              | inr x ↦ ap pick x ∙ backwards_word dst src n m (ground arith)
            ]
      ]
    ]

-- `memcpy` of a region of memory, also onto one that it overlaps: each byte of the target is the
-- byte that the source held before the call, and no other byte changes.
pub memcpy_lem :
    (dst src length : ℕ) (m : Bytes) (a : ℕ)
    → memcpy dst src length m a
      ≡ (if leb dst a && ltb a (dst + length) then m (src + (a - dst)) else m a)
unfolding memcpy
memcpy_lem dst src length m a = ap (λ f. f a) (memcpy_word dst src length m)
