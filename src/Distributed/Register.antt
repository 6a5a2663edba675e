-- ===== src/Distributed/Register.antt =====
-- crates/omniagent-distributed/src/crdt.rs: CrdtRegister, of a value of any type.
use omniagent_os.Base.{
  ℕ, ◌≡◌, refl, sym, ap, ap₂, subst, ◌∙◌, Bool, true, false, ◌&&◌, ◌||◌, Option, none, some, ◌==◌,
  ltb, if◌then◌else◌, arith, Bool-cases, inl, inr,
}
use omniagent_os.Distributed.Convergence.{IsSemilattice}

pub record CrdtRegister (T : Type 0) : Type 0 where
  pub value : Option T
  pub timestamp : ℕ
  pub node : ℕ

-- A write that is later, or as late and of a greater node.
abbrev pub newer : ℕ → ℕ → ℕ → ℕ → Bool
newer timestamp node than_timestamp than_node =
    ltb than_timestamp timestamp || ((timestamp == than_timestamp) && ltb than_node node)

module _ {T : Type 0} where
  unfoldable pub new : ℕ → CrdtRegister T
  new node = record { value = none; timestamp = 0; node = node }

  unfoldable pub with_value : ℕ → T → ℕ → CrdtRegister T
  with_value node value timestamp = record {
    value = some value;
    timestamp = timestamp;
    node = node;
  }

  unfoldable pub set_value : CrdtRegister T → T → ℕ → ℕ → CrdtRegister T
  set_value r value timestamp node =
      if newer timestamp node r.timestamp r.node
      then record { value = some value; timestamp = timestamp; node = node }
      else r

  unfoldable pub merge : CrdtRegister T → CrdtRegister T → CrdtRegister T
  merge r other = if newer other.timestamp other.node r.timestamp r.node then other else r

  unfoldable pub get_value : CrdtRegister T → Option T
  get_value r = r.value

  -- The register holds what the history of the writes says was written then, by that node.
  abbrev pub IsWritten : (ℕ → ℕ → Option T) → CrdtRegister T → Type 0
  IsWritten history r = r.value ≡ history r.timestamp r.node

  same_register :
      (history : ℕ → ℕ → Option T) (a b : CrdtRegister T)
      → IsWritten history a
      → IsWritten history b
      → a.timestamp ≡ b.timestamp
      → a.node ≡ b.node
      → a ≡ b
  same_register history a b h g e f =
      let v : a.value ≡ b.value = h ∙ ap₂ history e f ∙ sym g in
      ap (λ x. record { value = x; timestamp = a.timestamp; node = a.node }) v
      ∙ ap₂ (λ t n. record { value = b.value; timestamp = t; node = n }) e f

  -- The second register is newer than the first.
  abbrev wins : CrdtRegister T → CrdtRegister T → Bool
  wins a b = newer b.timestamp b.node a.timestamp a.node

  merge-wins : (a b : CrdtRegister T) → wins a b ≡ true → merge a b ≡ b
  unfolding merge
  merge-wins a b h = simp h refl

  merge-loses : (a b : CrdtRegister T) → wins a b ≡ false → merge a b ≡ a
  unfolding merge
  merge-loses a b h = simp h refl

  merge-cases :
      (P : CrdtRegister T → Type 0) (a b : CrdtRegister T)
      → (wins a b ≡ true → P b)
      → (wins a b ≡ false → P a)
      → P (merge a b)
  merge-cases P a b f g = elim (Bool-cases (wins a b)) [
    | inl y ↦ subst P (sym (merge-wins a b y)) (f y)
    | inr n ↦ subst P (sym (merge-loses a b n)) (g n)
  ]

module _ {T : Type 0} (history : ℕ → ℕ → Option T) where
  commutes_lem :
      (a b : CrdtRegister T) → IsWritten history a → IsWritten history b → merge a b ≡ merge b a
  commutes_lem a b h g = elim (Bool-cases (wins a b)) [
    | inl y ↦
        let back : wins b a ≡ false = ground (arith, y) in
        merge-wins a b y ∙ sym (merge-loses b a back)
    | inr n ↦ merge-loses a b n ∙ elim (Bool-cases (wins b a)) [
      | inl y ↦ sym (merge-wins b a y)
      | inr m ↦
          let e : a.timestamp ≡ b.timestamp = ground (arith, n, m) in
          let f : a.node ≡ b.node = ground (arith, n, m) in
          same_register history a b h g e f ∙ sym (merge-loses b a m)
    ]
  ]

  associates_lem : (a b c : CrdtRegister T) → merge (merge a b) c ≡ merge a (merge b c)
  associates_lem a b c = elim (Bool-cases (wins a b)) [
    | inl y ↦ ap (λ z. merge z c) (merge-wins a b y) ∙ elim (Bool-cases (wins b c)) [
      | inl x ↦
          let far : wins a c ≡ true = ground (arith, x, y) in
          merge-wins b c x ∙ sym (ap (merge a) (merge-wins b c x) ∙ merge-wins a c far)
      | inr m ↦ merge-loses b c m ∙ sym (ap (merge a) (merge-loses b c m) ∙ merge-wins a b y)
    ]
    | inr n ↦ ap (λ z. merge z c) (merge-loses a b n) ∙ elim (Bool-cases (wins b c)) [
      | inl x ↦ sym (ap (merge a) (merge-wins b c x))
      | inr m ↦
          let far : wins a c ≡ false = ground (arith, n, m) in
          merge-loses a c far ∙ sym (ap (merge a) (merge-loses b c m) ∙ merge-loses a b n)
    ]
  ]

  -- `merge` of registers is closed, commutes, associates and is idempotent, where the registers
  -- hold what one history says was written at a time by a node.
  pub merge-IsWritten : IsSemilattice (IsWritten history) merge
  merge-IsWritten = record {
    closed = λ a b h g. merge-cases (IsWritten history) a b (λ y. g) (λ n. h);
    commutes = commutes_lem;
    associates = λ a b c h g k. associates_lem a b c;
    repeats = λ a h. merge-cases (λ x. x ≡ a) a a (λ y. refl) (λ n. refl);
  }
