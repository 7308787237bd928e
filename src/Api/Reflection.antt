-- ===== src/Api/Reflection.antt =====
-- Get, Set, Clear, Has and Range of a message agree with each other.
use wordle.Prelude.{
  ◌≡◌, inl, inr, refl, ◌∙◌, sym, Bool, true, false, List, Bytes, [], ◌∷◌, ◌++◌, beq, beq_iff,
  Bool-cases, if◌then◌else◌, All,
}
use mathlib.Core.List.{append_assoc, append-nil}
use wordle.Exec.{Reply, ok, err, panic}
use wordle.Api.{
  TextField, Message, Value, string_value, is_populated, field_named, on_field, get, set, set_value,
  range,
}

-- Writing a field is read back from it, and leaves the fields of other names as they are.
abbrev pub IsLawful : {M : Type 0} → List (TextField M) → Type 0
IsLawful {M} fields =
    All
      (λ (f : TextField M).
        All
          (λ (g : TextField M).
            (s : Bytes) (x : M)
            → g.read (f.write s x) ≡ (if beq f.name g.name then s else g.read x))
          fields)
      fields

abbrev pub collect : Bytes → Value → List (Bytes × Value) → Bool × List (Bytes × Value)
collect name value seen = (true, seen ++ (name, value) ∷ [])

module _ {M : Type 0} where
  -- What holds of every field of a table holds of the one that a name finds, which has that name.
  found :
      (P : TextField M → Type 0) (fields : List (TextField M)) (name : Bytes) (f : TextField M)
      → All P fields
      → field_named fields name ≡ ok f
      → P f × (f.name ≡ name)
  unfolding field_named
  found P [] name f a e = absurd (cc)
  found P (g ∷ fields) name f (p, a) e = elim (Bool-cases (beq g.name name)) [
    | inl t ↦ same g (rw t at e) p ((beq_iff g.name name).0 t)
    | inr n ↦ found P fields name f a (rw n at e)
  ]
    where
      same :
          (g : TextField M)
          → ◌≡◌ {A = Reply (TextField M)} (ok g) (ok f)
          → P g
          → g.name ≡ name
          → P f × (f.name ≡ name)
      same g e p n = let e' : g ≡ f = cc in (rw e' at p, rw e' at n)

  get_of : Reply (TextField M) → M → Reply Value
  get_of r k = on_field r λ f. ok (string_value (f.read k))

  read_after :
      (fields : List (TextField M)) (k : M) (name other s : Bytes) (f : TextField M)
      (r : Reply (TextField M))
      → IsLawful fields
      → field_named fields name ≡ ok f
      → field_named fields other ≡ r
      → get_of r (f.write s k) ≡ (if beq name other then ok (string_value s) else get_of r k)
  unfolding get_of
  read_after fields k name other s f (ok g) law ef eg =
      let (row, nf) = found _ fields name f law ef in
      let (cell, ng) = found _ fields other g row eg in
      rw (cell s k, nf, ng) (choose (beq name other))
    where
      choose :
          (b : Bool)
          → ◌≡◌ {A = Reply Value}
              (ok (string_value (if b then s else g.read k)))
              (if b then ok (string_value s) else ok (string_value (g.read k)))
      choose true = refl
      choose false = refl
  read_after fields k name other s f (err e) law ef eg = elim (Bool-cases (beq name other)) [
    | inl t ↦ absurd (cc (ef, eg, (beq_iff name other).0 t))
    | inr n ↦ rw n
  ]
  read_after fields k name other s f panic law ef eg = elim (Bool-cases (beq name other)) [
    | inl t ↦ absurd (cc (ef, eg, (beq_iff name other).0 t))
    | inr n ↦ rw n
  ]

  set_found :
      (fields : List (TextField M)) (x y : Message M) (name s : Bytes) (r : Reply (TextField M))
      → field_named fields name ≡ r
      → on_field r (λ f. set_value f x (string_value s)) ≡ ok y
      → (f : TextField M) × (field_named fields name ≡ ok f)
        × (y ≡ record x { known = f.write s x.known })
  unfolding set_value
  set_found fields x y name s (ok f) e h = (f, e, cc)
  set_found fields x y name s (err b) e h = absurd (cc)
  set_found fields x y name s panic e h = absurd (cc)

  -- After Set, Get of the same name returns the text, and Get of any other name what it returned before.
  pub get-set :
      (fields : List (TextField M)) (x y : Message M) (name other s : Bytes)
      → IsLawful fields
      → set fields x name (string_value s) ≡ ok y
      → get fields y other ≡ (if beq name other then ok (string_value s) else get fields x other)
  unfolding set get get_of
  get-set fields x y name other s law e =
      let (f, ef, ey) = set_found fields x y name s (field_named fields name) refl e in
      rw ey (read_after fields x.known name other s f (field_named fields other) law ef refl)

  -- The populated fields of a message with their values, in order.
  abbrev pub populated : List (TextField M) → Message M → List (Bytes × Value)
  populated [] x = []
  populated (f ∷ fields) x =
      let rest = populated fields x in
      if is_populated (f.read x.known) then (f.name, string_value (f.read x.known)) ∷ rest else rest

  -- Range with a callback that collects what it is called with: every populated field once, in order.
  pub range-populated :
      (fields : List (TextField M)) (x : Message M) (seen : List (Bytes × Value))
      → range fields x collect seen ≡ seen ++ populated fields x
  unfolding range
  range-populated [] x seen = sym (append-nil seen)
  range-populated (f ∷ fields) x seen = elim (Bool-cases (is_populated (f.read x.known))) [
    | inl t ↦ rw t (
        range-populated fields x (seen ++ (f.name, string_value (f.read x.known)) ∷ [])
        ∙ append_assoc seen _ (populated fields x))
    | inr n ↦ rw n (range-populated fields x seen)
  ]
