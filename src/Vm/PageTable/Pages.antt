-- ===== src/Vm/PageTable/Pages.antt =====
-- The addresses of pages: one of them is known by its four indices.
use omniagent_os.Base.{ℕ, ◌+◌, ◌-◌, ◌*◌, ◌/◌, ◌%◌, ◌^◌, ◌<◌, ◌≡◌, refl, true, arith}
use omniagent_os.Vm.Addr.{is_canonical, is_aligned}
use omniagent_os.Vm.PageTable.{index_from_addr, is_page, upper}
use omniagent_os.Vm.PageTable.Ensuring.{IsIndices}

pub index-lt : (addr level : ℕ) → index_from_addr addr level < 512
unfolding index_from_addr
index-lt addr level = omega arith

pub upper-IsIndices : (addr : ℕ) → IsIndices (upper addr)
unfolding upper
upper-IsIndices addr = (index-lt addr 0, (index-lt addr 1, (index-lt addr 2, tt)))

-- The four indices are the digits of the low 48 bits, in base 512, above the offset.
digits :
    (v : ℕ)
    → v % 2 ^ 48
      ≡ v / 2 ^ 39 % 512 * 2 ^ 39
        + v / 2 ^ 30 % 512 * 2 ^ 30
        + v / 2 ^ 21 % 512 * 2 ^ 21
        + v / 2 ^ 12 % 512 * 2 ^ 12
        + v % 4096
digits v =
    let a : v % 2 ^ 48 ≡ v / 2 ^ 39 % 512 * 2 ^ 39 + v % 2 ^ 39 = omega arith in
    let b : v % 2 ^ 39 ≡ v / 2 ^ 30 % 512 * 2 ^ 30 + v % 2 ^ 30 = omega arith in
    let c : v % 2 ^ 30 ≡ v / 2 ^ 21 % 512 * 2 ^ 21 + v % 2 ^ 21 = omega arith in
    let d : v % 2 ^ 21 ≡ v / 2 ^ 12 % 512 * 2 ^ 12 + v % 2 ^ 12 = omega arith in
    omega (arith, a, b, c, d)

-- The 16 bits above are those of bit 47.
canonical-eq :
    (v w : ℕ)
    → is_canonical v ≡ true
    → is_canonical w ≡ true
    → v < 2 ^ 64
    → w < 2 ^ 64
    → v % 2 ^ 48 ≡ w % 2 ^ 48
    → v ≡ w
unfolding is_canonical
canonical-eq v w c d a b e =
    let bit : v / 2 ^ 47 % 2 ≡ w / 2 ^ 47 % 2 = omega (arith, e) in
    let top : v / 2 ^ 48 % 2 ^ 16 ≡ w / 2 ^ 48 % 2 ^ 16 = ground (arith, c, d, bit) in
    omega (arith, e, top, a, b)

pub page-eq :
    (v w : ℕ)
    → is_page v ≡ true
    → is_page w ≡ true
    → v < 2 ^ 64
    → w < 2 ^ 64
    → upper v ≡ upper w
    → index_from_addr v 3 ≡ index_from_addr w 3
    → v ≡ w
unfolding upper index_from_addr is_aligned
page-eq v w c d a b e i =
    let c' : (is_canonical v ≡ true) × (v % 4096 ≡ 0) = ground (arith, c) in
    let d' : (is_canonical w ≡ true) × (w % 4096 ≡ 0) = ground (arith, d) in
    let e0 : v / 2 ^ 39 % 512 ≡ w / 2 ^ 39 % 512 = cc e in
    let e1 : v / 2 ^ 30 % 512 ≡ w / 2 ^ 30 % 512 = cc e in
    let e2 : v / 2 ^ 21 % 512 ≡ w / 2 ^ 21 % 512 = cc e in
    let e3 : v / 2 ^ 12 % 512 ≡ w / 2 ^ 12 % 512 = i in
    let low : v % 2 ^ 48 ≡ w % 2 ^ 48 =
      omega (arith, digits v, digits w, e0, e1, e2, e3, c'.1, d'.1) in
    canonical-eq v w c'.0 d'.0 a b low

-- The page of an address has its indices.
pub page-down :
    (v : ℕ)
    → is_canonical v ≡ true
    → (is_page (v - v % 4096) ≡ true)
      × (upper (v - v % 4096) ≡ upper v)
      × (index_from_addr (v - v % 4096) 3 ≡ index_from_addr v 3)
unfolding upper index_from_addr is_aligned is_canonical
page-down v c =
    let top : (v - v % 4096) / 2 ^ 48 % 2 ^ 16 ≡ v / 2 ^ 48 % 2 ^ 16 = omega arith in
    let bit : (v - v % 4096) / 2 ^ 47 % 2 ≡ v / 2 ^ 47 % 2 = omega arith in
    let start : (v - v % 4096) % 4096 ≡ 0 = omega arith in
    let i0 : (v - v % 4096) / 2 ^ 39 % 512 ≡ v / 2 ^ 39 % 512 = omega arith in
    let i1 : (v - v % 4096) / 2 ^ 30 % 512 ≡ v / 2 ^ 30 % 512 = omega arith in
    let i2 : (v - v % 4096) / 2 ^ 21 % 512 ≡ v / 2 ^ 21 % 512 = omega arith in
    (
      simp top (simp bit (simp start (ground (arith, c)))),
      simp i0 (simp i1 (simp i2 refl)),
      omega arith,
    )
