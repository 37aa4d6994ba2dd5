-- ===== src/ListX/Rings.antt =====
-- All the lists of headers/listx.h that live in one memory: which address is the head of a list,
-- which is an entry and of which list, and that the operations keep every other list intact.
use progetto_so.Base.{
  ℕ, ◌≡◌, refl, ◌⊎◌, sym, ap, subst, ◌∙◌, ◌≢◌, inl, inr, List, [], ◌∷◌, ◌++◌, arith, All,
  All-append, All-right, All-left, Fresh, Distinct, Distinct-insert, Distinct-remove, Distinct-mid,
  first, last, write, write_ne, write_self, eq_cases,
}
use progetto_so.ListX.{Links, list_add_between, list_del}
use progetto_so.ListX.Ring.{
  Seg, Seg-mid, Seg-insert, Seg-remove, Seg-elsewhere_insert, Seg-elsewhere_remove,
}

-- What an address is for: nothing yet, the head of a list, or an entry of the list at a head.
pub data Role : Type 0 where
  loose head : Role
  in_ring : ℕ → Role

pub record Rings : Type 0 where
  pub role : ℕ → Role
  pub list : ℕ → List ℕ

abbrev pub Members : (ℕ → Role) → ℕ → List ℕ → Type 0
Members role h = All (λ x. role x ≡ in_ring h)

pub record IsRing (s : Links) (r : Rings) (h : ℕ) : Type 0 where
  pub chain : Seg s h (r.list h) h
  pub members : Members r.role h (r.list h)
  pub distinct : Distinct (r.list h)

-- Every head is the head of a circular list with the entries that `r` gives it.
abbrev pub Linked : Links → Rings → Type 0
Linked s r = (h : ℕ) → r.role h ≡ head → IsRing s r h

-- `n` becomes an entry of the list at `h`, which is `xs` now.
abbrev pub put : ℕ → ℕ → List ℕ → Rings → Rings
put n h xs r = record { role = write r.role n (in_ring h); list = write r.list h xs }

-- `n` is in no list, and the list at `h` is `xs` now.
abbrev pub take_out : ℕ → ℕ → List ℕ → Rings → Rings
take_out n h xs r = record { role = write r.role n loose; list = write r.list h xs }

-- `h` becomes the head of an empty list.
abbrev pub new_head : ℕ → Rings → Rings
new_head h r = record { role = write r.role h head; list = write r.list h [] }

pub head-ne-in_ring : (h : ℕ) → head ≢ in_ring h
head-ne-in_ring h e = cc

pub loose-ne-in_ring : (h : ℕ) → loose ≢ in_ring h
loose-ne-in_ring h e = cc

pub in_ring-injective : (a b : ℕ) → in_ring a ≡ in_ring b → a ≡ b
in_ring-injective a b e = cc

pub loose-ne-head : loose ≢ head
loose-ne-head e = cc

-- An address with another role is not in the list.
pub Fresh-of_role :
    (role : ℕ → Role) (n h : ℕ) (xs : List ℕ) → role n ≢ in_ring h → Members role h xs → Fresh n xs
Fresh-of_role role n h [] ne m = tt
Fresh-of_role role n h (x ∷ xs) ne m =
    ((λ e. ne (ap role e ∙ m.0)), Fresh-of_role role n h xs ne m.1)

pub Members-write :
    (role : ℕ → Role) (n h : ℕ) (v : Role) (xs : List ℕ)
    → Fresh n xs
    → Members role h xs
    → Members (write role n v) h xs
Members-write role n h v [] f m = tt
Members-write role n h v (x ∷ xs) f m = (ground arith, Members-write role n h v xs f.1 m.1)

-- `x` is the head `h` or an entry of its list.
abbrev Near : (ℕ → Role) → ℕ → ℕ → Type 0
Near role h x = (x ≡ h) ⊎ (role x ≡ in_ring h)

Near-last :
    (role : ℕ → Role) (h a : ℕ) (xs : List ℕ)
    → Near role h a
    → Members role h xs
    → Near role h (last a xs)
Near-last role h a [] n m = n
Near-last role h a (x ∷ xs) n m = Near-last role h x xs (inr m.0) m.1

Near-first : (role : ℕ → Role) (h : ℕ) (xs : List ℕ) → Members role h xs → Near role h (first xs h)
Near-first role h [] m = inl refl
Near-first role h (x ∷ xs) m = inr m.0

-- What is near one head is neither another head nor in its list.
module _ (role : ℕ → Role) (h k : ℕ) (hh : role h ≡ head) (hk : role k ≡ head) (kh : k ≢ h) where
  Near-apart : (x : ℕ) → Near role h x → (k ≢ x) × (role x ≢ in_ring k)
  Near-apart x (inl e) = ((λ q. kh (q ∙ e)), λ q. head-ne-in_ring k (sym (ap role e ∙ hh) ∙ q))
  Near-apart x (inr e) = (
    (λ q. head-ne-in_ring h (sym hk ∙ ap role q ∙ e)),
    λ q. kh (in_ring-injective k h (sym q ∙ e)),
  )

-- A ring by its contents, and back.
abbrev RingOf : Links → (ℕ → Role) → ℕ → List ℕ → Type 0
RingOf s role h xs = Seg s h xs h × Members role h xs × Distinct xs

pub ring_of :
    (s : Links) (r : Rings) (h : ℕ) {xs : List ℕ}
    → r.list h ≡ xs
    → IsRing s r h
    → RingOf s r.role h xs
ring_of s r h e i =
    rw e at (let t : RingOf s r.role h (r.list h) = (i.chain, i.members, i.distinct) in t)

pub IsRing-of :
    (s : Links) (r : Rings) (h : ℕ) {xs : List ℕ}
    → r.list h ≡ xs
    → RingOf s r.role h xs
    → IsRing s r h
IsRing-of s r h e t =
    let u : RingOf s r.role h (r.list h) = rw e t in
    record { chain = u.0; members = u.1; distinct = u.2 }

module _ (s : Links) (r : Rings) (h n : ℕ) (ys zs : List ℕ) (l : Linked s r)
    (hh : r.role h ≡ head) where
  -- Another list, at an insertion or a removal between two neighbours.
  elsewhere :
      (t : Links) (role' : ℕ → Role) (v : Role) (xs : List ℕ) (k : ℕ)
      → k ≢ h
      → k ≢ n
      → r.role k ≡ head
      → Fresh n (r.list k)
      → Members r.role h (ys ++ zs)
      → ((p f : ℕ)
          → p ≡ last h ys
          → f ≡ first zs h
          → k ≢ p
          → k ≢ f
          → Fresh p (r.list k)
          → Fresh f (r.list k)
          → Seg t k (r.list k) k)
      → IsRing t (record { role = write r.role n v; list = write r.list h xs }) k
  elsewhere t role' v xs k kh kn hk fn m keep =
      let i = l k hk in
      let p =
        Near-apart r.role h k hh hk kh (last h ys)
          (Near-last r.role h h ys (inl refl) (All-left (λ x. r.role x ≡ in_ring h) ys zs m)) in
      let f =
        Near-apart r.role h k hh hk kh (first zs h)
          (Near-first r.role h zs (All-right (λ x. r.role x ≡ in_ring h) ys zs m)) in
      IsRing-of t _ k (write_ne r.list h xs k kh) (
        keep (last h ys) (first zs h) refl refl p.0 f.0 (Fresh-of_role r.role _ k _ p.1 i.members)
            (Fresh-of_role r.role _ k _ f.1 i.members),
        Members-write r.role n k v (r.list k) fn i.members,
        i.distinct,
      )

  -- A loose address is linked in between two neighbours of a list: that list gains it there, and
  -- every other list stays.
  pub Linked-insert :
      r.role n ≡ loose
      → r.list h ≡ ys ++ zs
      → Linked (list_add_between n (last h ys) (first zs h) s) (put n h (ys ++ n ∷ zs) r)
  Linked-insert hn e k hk =
      let nh : n ≢ h = λ q. loose-ne-head (sym hn ∙ ap r.role q ∙ hh) in
      let kn : k ≢ n = λ q. head-ne-in_ring h (sym hk ∙ rw q (write_self r.role n (in_ring h))) in
      let hk' : r.role k ≡ head = rw (write_ne r.role n (in_ring h) k kn) at hk in
      let (g, m, d) = ring_of s r h e (l h hh) in
      let fresh = Fresh-of_role r.role n h (ys ++ zs) (λ q. loose-ne-in_ring h (sym hn ∙ q)) m in
      let fresh_h = Fresh-of_role r.role h h (ys ++ zs) (λ q. head-ne-in_ring h (sym hh ∙ q)) m in
      elim (eq_cases k h) [
        | inl q ↦ subst (IsRing _ _) (sym q) (
            IsRing-of _ _ h (write_self r.list h (ys ++ n ∷ zs)) (
              Seg-insert s n h nh h ys zs nh fresh fresh_h fresh_h d g,
              All-append (λ x. write r.role n (in_ring h) x ≡ in_ring h) ys (n ∷ zs)
                  (Members-write r.role n h _ ys (All-left (λ x. n ≢ x) ys zs fresh)
                    (All-left (λ x. r.role x ≡ in_ring h) ys zs m))
                  (
                    write_self r.role n (in_ring h),
                    Members-write r.role n h _ zs (All-right (λ x. n ≢ x) ys zs fresh)
                        (All-right (λ x. r.role x ≡ in_ring h) ys zs m),
                  ),
              Distinct-insert n ys zs d fresh,
            ))
        | inr kh ↦
            let fk =
              Fresh-of_role r.role n k (r.list k) (λ q. loose-ne-in_ring k (sym hn ∙ q))
                (l k hk').members in
            elsewhere _ r.role (in_ring h) (ys ++ n ∷ zs) k kh kn hk' fk m λ p f ep ef kp kf fp ff.
              rw (← ep, ← ef)
                (Seg-elsewhere_insert s n p f k (r.list k) kn kp kf fk fp ff (l k hk').chain)
      ]

  -- An entry is taken out from between its neighbours: its list loses it, it is loose again, and
  -- every other list stays.
  pub Linked-remove : r.list h ≡ ys ++ n ∷ zs → Linked (list_del n s) (take_out n h (ys ++ zs) r)
  unfolding list_del
  Linked-remove e k hk =
      let (g, m, d) = ring_of s r h e (l h hh) in
      let hn : r.role n ≡ in_ring h = (All-right (λ x. r.role x ≡ in_ring h) ys (n ∷ zs) m).0 in
      let nh : n ≢ h = λ q. head-ne-in_ring h (sym hh ∙ ap r.role (sym q) ∙ hn) in
      let kn : k ≢ n = λ q.
        loose-ne-head (sym (write_self r.role n loose) ∙ ap (write r.role n loose) (sym q) ∙ hk) in
      let hk' : r.role k ≡ head = rw (write_ne r.role n loose k kn) at hk in
      let fresh = Distinct-mid n ys zs d in
      let m' : Members r.role h (ys ++ zs) =
        All-append (λ x. r.role x ≡ in_ring h) ys zs
          (All-left (λ x. r.role x ≡ in_ring h) ys (n ∷ zs) m)
          (All-right (λ x. r.role x ≡ in_ring h) ys (n ∷ zs) m).1 in
      let fresh_h = Fresh-of_role r.role h h (ys ++ zs) (λ q. head-ne-in_ring h (sym hh ∙ q)) m' in
      let mid = Seg-mid s h h n ys zs g in
      rw (mid.0, mid.1)
        (elim (eq_cases k h) [
          | inl q ↦ subst (IsRing _ _) (sym q) (
              IsRing-of _ _ h (write_self r.list h (ys ++ zs)) (
                Seg-remove s n h nh h ys zs nh fresh fresh_h fresh_h (Distinct-remove n ys zs d) g,
                Members-write r.role n h loose (ys ++ zs) fresh m',
                Distinct-remove n ys zs d,
              ))
          | inr kh ↦
              let fk =
                Fresh-of_role r.role n k (r.list k) (λ q. kh (in_ring-injective k h (sym q ∙ hn)))
                  (l k hk').members in
              elsewhere _ r.role loose (ys ++ zs) k kh kn hk' fk m' λ p f ep ef kp kf fp ff.
                rw (← ep, ← ef)
                  (Seg-elsewhere_remove s n p f k (r.list k) kn kp kf fk fp ff (l k hk').chain)
        ])
