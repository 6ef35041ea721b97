-- ===== src/Sync/Taking.antt =====
-- What a wait for one of several objects that does not block does to them, by dll/kernel32/synchapi.cpp.
use wibo.Base.{
  ℕ, zero, suc, ◌+◌, ◌-◌, ◌≤◌, ◌<◌, ◌≡◌, ◌≢◌, ◌⊎◌, inl, inr, refl, sym, ap, ◌∙◌, subst, arith, List,
  [], ◌∷◌, map, true, false, none, some, ◌==◌, if◌then◌else◌, length, get_elem?, same_some,
  Bool-cases, Option-cases,
}
use Prim.{Unit}
use wibo.Base.Maps.{put, put-same, put-other}
use wibo.Sync.Waitables.{Waitable, wait_for_single_object, wait_event, wait_semaphore, wait_mutex}
use wibo.Sync.Multiple.{Store, is_signaled, is_abandoned, consume, wait_for_multiple_objects}
use wibo.Sync.Polling.{first_signaled, wait_for_multiple_objects-consume}

-- What a wait that succeeds does to an object that is signaled: an event is reset unless it is a manual one, a
-- semaphore has one less, a mutex is the thread's, and threads and processes stay as they are.
abbrev pub Taken : ℕ → Waitable → Waitable → Type 0
Taken self (Waitable.an_event e) w =
    w ≡ Waitable.an_event (record { manual_reset = e.manual_reset; signaled = e.manual_reset })
Taken self (Waitable.a_semaphore s) w =
    (n : ℕ) × (s.count ≡ n + 1)
    × (w
        ≡ Waitable.a_semaphore (record {
          count = n;
          max_count = s.max_count;
          signaled = if n == 0 then false else true;
        }))
Taken self (Waitable.a_mutex m) w =
    w
    ≡ Waitable.a_mutex (record {
      owner_valid = true;
      owner = self;
      recursion_count = 1;
      abandoned = false;
      signaled = false;
    })
Taken self (Waitable.a_thread t) w = w ≡ Waitable.a_thread t
Taken self (Waitable.a_process p) w = w ≡ Waitable.a_process p

-- A semaphore that is signaled has some, and a mutex is signaled only while nobody owns it.
abbrev pub IsHonest : Waitable → Type 0
IsHonest (Waitable.a_semaphore s) = (s.signaled ≡ false) ⊎ (0 < s.count)
IsHonest (Waitable.a_mutex m) = (m.signaled ≡ false) ⊎ (m.owner_valid ≡ false)
IsHonest w = Unit {0}

wait_for_single_object-Taken :
    (self : ℕ) (w : Waitable)
    → IsHonest w
    → is_signaled w ≡ true
    → Taken self w (wait_for_single_object self w).1
unfolding wait_for_single_object wait_event wait_semaphore wait_mutex
wait_for_single_object-Taken self (Waitable.an_event e) h s = ground (arith, s)
wait_for_single_object-Taken self (Waitable.a_semaphore e) h s =
    (e.count - 1, ground (arith, h, s), ground (arith, h, s))
wait_for_single_object-Taken self (Waitable.a_mutex m) h s = ground (arith, h, s)
wait_for_single_object-Taken self (Waitable.a_thread t) h s = refl
wait_for_single_object-Taken self (Waitable.a_process p) h s = refl

-- No object is signaled, and the wait times out; or the wait answers the index of an object that is signaled,
-- before which none is, and takes that object and no other.
abbrev pub Polled : ℕ → List ℕ → Store → ℕ → Store → Type 0
Polled self ps store r store' =
    ((r ≡ 0x102)
      × (store' ≡ store)
      × ((j q : ℕ) → get_elem? ps j ≡ some q → is_signaled (store q) ≡ false))
    ⊎ ((p : ℕ) × (get_elem? ps r ≡ some p)
        × (is_signaled (store p) ≡ true)
        × ((j q : ℕ) → j < r → get_elem? ps j ≡ some q → is_signaled (store q) ≡ false)
        × Taken self (store p) (store' p)
        × ((q : ℕ) → q ≢ p → store' q ≡ store q))

first_signaled-none :
    (store : Store) (k : ℕ) (ps : List ℕ)
    → first_signaled store k ps ≡ none
    → (j q : ℕ) → get_elem? ps j ≡ some q
    → is_signaled (store q) ≡ false
first_signaled-none store k [] e j q g = absurd (grind (arith, g))
first_signaled-none store k (p ∷ ps) e zero q g = elim (Bool-cases (is_signaled (store p))) [
  | inl t ↦ absurd (grind (arith, t, e))
  | inr f ↦ subst (λ z. is_signaled (store z) ≡ false) (same_some refl g) f
]
first_signaled-none store k (p ∷ ps) e (suc j) q g = elim (Bool-cases (is_signaled (store p))) [
  | inl t ↦ absurd (grind (arith, t, e))
  | inr f ↦ first_signaled-none store (suc k) ps (ground (arith, f, e)) j q g
]

-- The object at index `j` is the first that is signaled.
abbrev IsFirst : Store → List ℕ → ℕ → ℕ → Type 0
IsFirst store ps j p =
    (get_elem? ps j ≡ some p)
    × (is_signaled (store p) ≡ true)
    × ((l q : ℕ) → l < j → get_elem? ps l ≡ some q → is_signaled (store q) ≡ false)

IsFirst-later :
    (store : Store) (ps : List ℕ) (j p x : ℕ)
    → is_signaled (store x) ≡ false
    → IsFirst store ps j p
    → IsFirst store (x ∷ ps) (suc j) p
IsFirst-later store ps j p x f (g, t, h) = (g, t, before)
  where
    before : (l q : ℕ) → l < suc j → get_elem? (x ∷ ps) l ≡ some q → is_signaled (store q) ≡ false
    before zero q u e = subst (λ z. is_signaled (store z) ≡ false) (same_some refl e) f
    before (suc l) q u e = h l q (omega arith) e

first_signaled-IsFirst :
    (store : Store) (k : ℕ) (ps : List ℕ) (i : ℕ)
    → first_signaled store k ps ≡ some i
    → (j : ℕ) × (p : ℕ) × (i ≡ k + j) × IsFirst store ps j p
first_signaled-IsFirst store k [] i e = absurd (grind (arith, e))
first_signaled-IsFirst store k (x ∷ ps) i e = elim (Bool-cases (is_signaled (store x))) [
  | inl t ↦ (0, x, ground (arith, t, e), (refl, t, λ l q u. absurd (omega arith)))
  | inr f ↦
      let (j, p, q, h) = first_signaled-IsFirst store (suc k) ps i (ground (arith, f, e)) in
      (suc j, p, omega (arith, q), IsFirst-later store ps j p x f h)
]

consume-put :
    (self : ℕ) (ps : List ℕ) (i p : ℕ) (store : Store)
    → get_elem? ps i ≡ some p
    → consume self ps i store ≡ put store p (wait_for_single_object self (store p)).1
unfolding consume
consume-put self ps i p store e = rw (consume, e) refl

-- A wait for one of 1 to 64 objects, none of them abandoned, where a signaled semaphore has some and a signaled
-- mutex no owner, and to which no signal arrives: it answers the index of the first object that is signaled,
-- and takes that object and no other; with none signaled it times out and changes nothing.
pub wait_for_multiple_objects-Polled :
    (self : ℕ) (ps : List ℕ) (store : Store)
    → ((p : ℕ) → is_abandoned (store p) ≡ false)
    → ((p : ℕ) → IsHonest (store p))
    → 0 < length ps
    → length ps ≤ 64
    → (r : ℕ) × (store' : Store) × (wait_for_multiple_objects self false
          (map some ps)
          store
          []
          store
        ≡ (r, store'))
      × Polled self ps store r store'
wait_for_multiple_objects-Polled self ps store a h lo hi =
    let e = wait_for_multiple_objects-consume self ps store a lo hi in
    elim (Option-cases (first_signaled store 0 ps)) [
      | inl n ↦ (0x102, store, rw n at e, inl (refl, refl, first_signaled-none store 0 ps n))
      | inr (i, n) ↦
          let (j, p, q, (g, t, before)) = first_signaled-IsFirst store 0 ps i n in
          let x : i ≡ j = omega (arith, q) in
          let w : Waitable = (wait_for_single_object self (store p)).1 in
          let c : consume self ps i store ≡ put store p w =
            rw x (consume-put self ps j p store g) in
          (
            j,
            put store p w,
            (rw n at e) ∙ ap (λ z. (i, z)) c ∙ ap (λ z. (z, put store p w)) x,
            inr (
              p,
              g,
              t,
              before,
              subst (Taken self (store p)) (sym (put-same store p w))
                  (wait_for_single_object-Taken self (store p) (h p) t),
              λ y ne. put-other store p w y ne,
            ),
          )
    ]
