-- ===== src/Tls/Installed.antt =====
-- The second and third loop of the growth in src/tls.cpp: the blocks point to their new arrays, the old ones
-- are freed, and every slot reads as before.
use wibo.Base.{
  ℕ, ◌≡◌, ◌≢◌, ◌⊎◌, inl, inr, refl, sym, ap, ◌∙◌, subst, List, [], ◌∷◌, Option, none, some, arith,
  ◌==◌, same_some, Bool-cases,
}
use wibo.Base.Maps.{put, put-same, put-other}
use wibo.Tls.Memory.{Arrays, free_array, read_slot}
use wibo.Tls.Grow.{PendingResize, set_expansion, install, free_old}
use wibo.Tls.Sound.{HasArray, Blocks, IsOwned}
use wibo.Tls.Prepared.{NotTib, NotNew, Extends, Ready, read_slot-same}

abbrev Unpointed : Blocks → ℕ → Type 0
Unpointed teb a = (u : ℕ) → (teb u).expansion ≢ some a

-- The changes still to be made.
abbrev Pend : Blocks → Arrays → List PendingResize → Type 0
Pend teb m [] = ◌≡◌ {A = ℕ} 0 0
Pend teb m ((t, old, new) ∷ ps) =
    ((teb t).expansion ≡ old)
    × HasArray m new
    × Unpointed teb new
    × ((k : ℕ) → read_slot m (some new) k ≡ read_slot m old k)
    × NotTib t ps
    × NotNew new ps
    × Pend teb m ps

Pend-Ready :
    (teb : Blocks) (m m' : Arrays) (ps : List PendingResize)
    → IsOwned teb m
    → Extends m m'
    → Ready (λ t. (teb t).expansion) m m' ps
    → Pend teb m' ps
Pend-Ready teb m m' [] o x r = refl
Pend-Ready teb m m' ((t, old, new) ∷ ps) o x (p, dead, has, reads, nt, nn, r) = (
  p,
  has,
  λ u q. let (arr, (e, _)) = o.live u new q in absurd (grind (arith, e, dead)),
  λ k. reads k ∙ same_read old k p,
  nt,
  nn,
  Pend-Ready teb m m' ps o x r,
)
  where
    same_read : (q : Option ℕ) (k : ℕ) → (teb t).expansion ≡ q → read_slot m q k ≡ read_slot m' q k
    same_read none k h = unfold read_slot in refl
    same_read (some a) k h =
        let (arr, (e, _)) = o.live t a h in sym (read_slot-same m m' a arr k e (x a arr e))

pub set_expansion-direct :
    (teb : Blocks) (t : ℕ) (b : Option ℕ) (u : ℕ)
    → (set_expansion teb t b u).tls_slots ≡ (teb u).tls_slots
unfolding set_expansion
set_expansion-direct teb t b u = elim (Bool-cases (u == t)) [
  | inl e ↦
      let q : t ≡ u = grind arith in
      subst (λ z. (set_expansion teb t b z).tls_slots ≡ (teb z).tls_slots) q
        (ap (λ z. z.tls_slots) (put-same teb t (record (teb t) { expansion = b })))
  | inr e ↦
      ap (λ z. z.tls_slots)
        (put-other teb t (record (teb t) { expansion = b }) u (λ z. absurd (grind arith)))
]

module _ (teb : Blocks) (t : ℕ) (b : ℕ) where
  set_expansion-same : (set_expansion teb t (some b) t).expansion ≡ some b
  unfolding set_expansion
  set_expansion-same =
      ap (λ z. z.expansion) (put-same teb t (record (teb t) { expansion = some b }))

  set_expansion-other : (u : ℕ) → u ≢ t → set_expansion teb t (some b) u ≡ teb u
  unfolding set_expansion
  set_expansion-other u h = put-other teb t (record (teb t) { expansion = some b }) u h

  -- A block points to the array it is given, or to the one it had.
  set_expansion-cases :
      (u a : ℕ)
      → (set_expansion teb t (some b) u).expansion ≡ some a
      → ((u ≡ t) × (a ≡ b)) ⊎ ((u ≢ t) × ((teb u).expansion ≡ some a))
  set_expansion-cases u a h = elim (Bool-cases (u == t)) [
    | inl e ↦
        let q : u ≡ t = grind arith in
        inl (
          q,
          same_some (sym (ap (λ z. (set_expansion teb t (some b) z).expansion) q) ∙ h)
              set_expansion-same,
        )
    | inr e ↦
        let q : u ≢ t = λ z. absurd (grind arith) in
        inr (q, sym (ap (λ z. z.expansion) (set_expansion-other u q)) ∙ h)
  ]

  set_expansion-IsOwned :
      (m : Arrays)
      → IsOwned teb m
      → HasArray m b
      → Unpointed teb b
      → IsOwned (set_expansion teb t (some b)) m
  set_expansion-IsOwned m o has free = record {
    live = λ u a h. elim (set_expansion-cases u a h) [
      | inl (_, e) ↦ subst (HasArray m) (sym e) has
      | inr (_, e) ↦ o.live u a e
    ];
    own = λ u v a h k. elim (set_expansion-cases u a h) [
      | inl (p, e) ↦ elim (set_expansion-cases v a k) [
        | inl (q, _) ↦ p ∙ sym q
        | inr (_, q) ↦ absurd (free v (q ∙ ap some e))
      ]
      | inr (_, e) ↦ elim (set_expansion-cases v a k) [
        | inl (_, q) ↦ absurd (free u (e ∙ ap some q))
        | inr (_, q) ↦ o.own u v a e q
      ]
    ];
  }

  set_expansion-Unpointed :
      (a : ℕ) → a ≢ b → Unpointed teb a → Unpointed (set_expansion teb t (some b)) a
  set_expansion-Unpointed a ne free u h = elim (set_expansion-cases u a h) [
    | inl (_, e) ↦ ne e
    | inr (_, e) ↦ free u e
  ]

  set_expansion-Pend :
      (m : Arrays) (ps : List PendingResize)
      → NotTib t ps
      → NotNew b ps
      → Pend teb m ps
      → Pend (set_expansion teb t (some b)) m ps
  set_expansion-Pend m [] nt nn p = refl
  set_expansion-Pend m ((u, old, new) ∷ ps) (n1, nt) (n2, nn) (p, has, free, reads, nt', nn', r) = (
    ap (λ z. z.expansion) (set_expansion-other u n1) ∙ p,
    has,
    set_expansion-Unpointed new n2 free,
    reads,
    nt',
    nn',
    set_expansion-Pend m ps nt nn r,
  )

-- Every slot of every block reads in `teb'` as in `teb`.
abbrev pub SameReads : Blocks → Arrays → Blocks → Arrays → Type 0
SameReads teb m teb' m' =
    (t k : ℕ) → read_slot m' (teb' t).expansion k ≡ read_slot m (teb t).expansion k

install-IsOwned :
    (teb : Blocks) (m : Arrays) (ps : List PendingResize)
    → IsOwned teb m
    → Pend teb m ps
    → IsOwned (install ps teb) m
      × SameReads teb m (install ps teb) m
      × ((t : ℕ) → (install ps teb t).tls_slots ≡ (teb t).tls_slots)
unfolding install
install-IsOwned teb m [] o p = (o, λ t k. refl, λ t. refl)
install-IsOwned teb m ((t, old, new) ∷ ps) o (p, has, free, reads, nt, nn, r) =
    let teb1 : Blocks = set_expansion teb t (some new) in
    let (o', same, direct) =
      install-IsOwned teb1 m ps (set_expansion-IsOwned teb t new m o has free)
        (set_expansion-Pend teb t new m ps nt nn r) in
    (
      o',
      λ u k. same u k ∙ elim (Bool-cases (u == t)) [
        | inl e ↦
            let q : u ≡ t = grind arith in
            ap (λ z. read_slot m (teb1 z).expansion k) q
            ∙ ap (λ z. read_slot m z k) (set_expansion-same teb t new)
            ∙ reads k
            ∙ ap (λ z. read_slot m z k) (sym p)
            ∙ ap (λ z. read_slot m (teb z).expansion k) (sym q)
        | inr e ↦
            ap (λ z. read_slot m z.expansion k)
              (set_expansion-other teb t new u (λ z. absurd (grind arith)))
      ],
      λ u. direct u ∙ set_expansion-direct teb t (some new) u,
    )

-- No pending change replaces this array.
abbrev NotOld : ℕ → List PendingResize → Type 0
NotOld a [] = ◌≡◌ {A = ℕ} 0 0
NotOld a ((_, old, _) ∷ ps) = (old ≢ some a) × NotOld a ps

-- The arrays to free: allocated, no block points to them, and none is there twice.
abbrev Loose : Blocks → Arrays → List PendingResize → Type 0
Loose teb m [] = ◌≡◌ {A = ℕ} 0 0
Loose teb m ((_, none, _) ∷ ps) = Loose teb m ps
Loose teb m ((_, some old, _) ∷ ps) =
    HasArray m old × Unpointed teb old × NotOld old ps × Loose teb m ps

Loose-put :
    (teb : Blocks) (m : Arrays) (a : ℕ) (ps : List PendingResize)
    → NotOld a ps
    → Loose teb m ps
    → Loose teb (put m a none) ps
Loose-put teb m a [] n l = refl
Loose-put teb m a ((_, none, _) ∷ ps) (_, n) l = Loose-put teb m a ps n l
Loose-put teb m a ((_, some old, _) ∷ ps) (ne, n) ((arr, (e, c)), free, nold, l) = (
  (arr, (put-other m a none old (λ q. ne (ap some q)) ∙ e, c)),
  free,
  nold,
  Loose-put teb m a ps n l,
)

-- Freeing them leaves every array that a block points to.
free_old-Loose :
    (teb : Blocks) (m : Arrays) (ps : List PendingResize)
    → Loose teb m ps
    → (m' : Arrays) × ((free_old ps m ≡ some m')
        × ((t a : ℕ) → (teb t).expansion ≡ some a → m' a ≡ m a))
unfolding free_old free_array
free_old-Loose teb m [] l = (m, (refl, λ t a h. refl))
free_old-Loose teb m ((t, none, new) ∷ ps) l = free_old-Loose teb m ps l
free_old-Loose teb m ((t, some old, new) ∷ ps) ((arr, (e, _)), free, nold, l) =
    let (m', (q, same)) = free_old-Loose teb (put m old none) ps (Loose-put teb m old ps nold l) in
    (
      m',
      (
        rw (free_old, free_array, e) q,
        λ u a h. same u a h ∙ put-other m old none a (λ z. free u (h ∙ ap some z)),
      ),
    )

-- An array that no block points to and none is given stays so.
install-Unpointed :
    (teb : Blocks) (a : ℕ) (ps : List PendingResize)
    → NotNew a ps
    → Unpointed teb a
    → Unpointed (install ps teb) a
unfolding install
install-Unpointed teb a [] n free = free
install-Unpointed teb a ((t, old, new) ∷ ps) (ne, n) free =
    install-Unpointed (set_expansion teb t (some new)) a ps n
      (set_expansion-Unpointed teb t new a (λ q. ne (sym q)) free)

-- What a block points to is neither made nor replaced for another one.
Pend-own :
    (teb : Blocks) (m : Arrays) (t a : ℕ) (ps : List PendingResize)
    → IsOwned teb m
    → (teb t).expansion ≡ some a
    → NotTib t ps
    → Pend teb m ps
    → NotNew a ps × NotOld a ps
Pend-own teb m t a [] o h nt p = (refl, refl)
Pend-own teb m t a ((u, old, new) ∷ ps) o h (n1, nt) (p, has, free, reads, nt', nn', r) =
    let (x, y) = Pend-own teb m t a ps o h nt r in
    ((λ q. free t (h ∙ ap some (sym q)), x), (λ q. n1 (o.own u t a (p ∙ q) h), y))

install-Loose :
    (teb : Blocks) (m : Arrays) (ps : List PendingResize)
    → IsOwned teb m
    → Pend teb m ps
    → Loose (install ps teb) m ps
unfolding install
install-Loose teb m [] o p = refl
install-Loose teb m ((t, none, new) ∷ ps) o (p, has, free, reads, nt, nn, r) =
    install-Loose (set_expansion teb t (some new)) m ps
      (set_expansion-IsOwned teb t new m o has free) (set_expansion-Pend teb t new m ps nt nn r)
install-Loose teb m ((t, some old, new) ∷ ps) o (p, has, free, reads, nt, nn, r) =
    let teb1 : Blocks = set_expansion teb t (some new) in
    let (notnew, notold) = Pend-own teb m t old ps o p nt r in
    let free1 : Unpointed teb1 old = λ u h. elim (set_expansion-cases teb t new u old h) [
      | inl (_, e) ↦ free t (p ∙ ap some e)
      | inr (ne, e) ↦ ne (o.own u t old e p)
    ] in
    (
      o.live t old p,
      install-Unpointed teb1 old ps notnew free1,
      notold,
      install-Loose teb1 m ps (set_expansion-IsOwned teb t new m o has free)
          (set_expansion-Pend teb t new m ps nt nn r),
    )

kept_read :
    (m m' : Arrays) (o : Option ℕ) (k : ℕ)
    → ((a : ℕ) → o ≡ some a → m' a ≡ m a)
    → read_slot m' o k ≡ read_slot m o k
unfolding read_slot
kept_read m m' none k h = refl
kept_read m m' (some a) k h = rw (read_slot, h a refl) refl

-- Making the pending changes and freeing the old arrays leaves the blocks with arrays of their own, from
-- which every slot reads as before.
pub install-SameReads :
    (teb : Blocks) (m m1 : Arrays) (ps : List PendingResize)
    → IsOwned teb m
    → Extends m m1
    → Ready (λ t. (teb t).expansion) m m1 ps
    → (m' : Arrays) × ((free_old ps m1 ≡ some m')
        × IsOwned (install ps teb) m'
        × SameReads teb m (install ps teb) m'
        × ((t : ℕ) → (install ps teb t).tls_slots ≡ (teb t).tls_slots))
install-SameReads teb m m1 ps o x r =
    let teb' : Blocks = install ps teb in
    let p = Pend-Ready teb m m1 ps o x r in
    let o1 : IsOwned teb m1 = record {
      live = λ t a h. let (arr, (e, l)) = o.live t a h in (arr, (x a arr e, l));
      own = o.own;
    } in
    let (o2, same, direct) = install-IsOwned teb m1 ps o1 p in
    let (m', (e, keep)) = free_old-Loose teb' m1 ps (install-Loose teb m1 ps o1 p) in
    (
      m',
      (
        e,
        record {
          live = λ t a h. let (arr, (q, l)) = o2.live t a h in (arr, (keep t a h ∙ q, l));
          own = o2.own;
        },
        λ t k.
            kept_read m1 m' (teb' t).expansion k (λ a h. keep t a h)
            ∙ same t k
            ∙ sym (
                kept_read m1 m (teb t).expansion k
                  (λ a h. let (arr, (q, _)) = o.live t a h in q ∙ sym (x a arr q))),
        direct,
      ),
    )
