-- ===== src/Cli/Library/Counted.antt =====
-- The count is right: lib/src/core/cli/Start.cc.
use no.Prelude.{
  ℕ, zero, suc, ◌+◌, ◌<◌, ◌≤◌, Bool, true, false, some, List, [], ◌∷◌, ◌++◌, ◌≡◌, ◌≢◌, ◌↔◌, refl,
  ◌∙◌, arith, Option-cases, inl, inr,
}
use no.Cli.Library.{
  Handle, alive, destroyed, Library, closed, active_of, put, get_initialization_context, copy, move,
  assign, move_assign, destroy,
}

-- The active handles.
abbrev pub is_active : Handle → ℕ
is_active (alive true) = 1
is_active (alive false) = 0
is_active destroyed = 0

abbrev pub active_handles : List Handle → ℕ
active_handles [] = 0
active_handles (h ∷ hs) = is_active h + active_handles hs

-- The states that a program reaches which never assigns to a handle that is active.
pub data History : Library → Type 0 where
  start : History closed
  opened :
      (init_ok : Bool) {l : Library} → History l → History (get_initialization_context init_ok l).1
  copied : (i : ℕ) {l l' : Library} → History l → copy i l ≡ some l' → History l'
  moved : (i : ℕ) {l l' : Library} → History l → move i l ≡ some l' → History l'
  assigned :
      (i j : ℕ) {l l' : Library}
      → History l
      → active_of i l.handles ≡ some false
      → assign i j l ≡ some l'
      → History l'
  move_assigned :
      (i j : ℕ) {l l' : Library}
      → History l
      → active_of i l.handles ≡ some false
      → i ≢ j
      → move_assign i j l ≡ some l'
      → History l'
  dropped : (i : ℕ) {l l' : Library} → History l → destroy i l ≡ some l' → History l'

active_handles-append :
    (hs gs : List Handle) → active_handles (hs ++ gs) ≡ active_handles hs + active_handles gs
active_handles-append [] gs = omega arith
active_handles-append (h ∷ hs) gs = omega (arith, active_handles-append hs gs)

active_handles-put :
    (i : ℕ) (h : Handle) (hs : List Handle) {active : Bool}
    → active_of i hs ≡ some active
    → active_handles (put i h hs) + is_active (alive active) ≡ active_handles hs + is_active h
active_handles-put i h [] e = absurd (cc)
active_handles-put zero h (alive true ∷ hs) {active = active} e = ground (arith, e)
active_handles-put zero h (alive false ∷ hs) {active = active} e = ground (arith, e)
active_handles-put zero h (destroyed ∷ hs) e = absurd (cc)
active_handles-put (suc i) h (g ∷ hs) e = omega (arith, active_handles-put i h hs e)

active_of-put :
    (i j : ℕ) (h : Handle) (hs : List Handle) → i ≢ j → active_of j (put i h hs) ≡ active_of j hs
active_of-put i j h [] e = refl
active_of-put zero zero h (g ∷ hs) e = absurd (e refl)
active_of-put zero (suc j) h (g ∷ hs) e = refl
active_of-put (suc i) zero h (alive active ∷ hs) e = refl
active_of-put (suc i) zero h (destroyed ∷ hs) e = refl
active_of-put (suc i) (suc j) h (g ∷ hs) e = active_of-put i j h hs (λ p. e (omega (arith, p)))

active_handles_bound :
    (i : ℕ) (hs : List Handle) {active : Bool}
    → active_of i hs ≡ some active
    → is_active (alive active) ≤ active_handles hs
active_handles_bound i [] e = absurd (cc)
active_handles_bound zero (alive true ∷ hs) e = ground (arith, e)
active_handles_bound zero (alive false ∷ hs) e = ground (arith, e)
active_handles_bound zero (destroyed ∷ hs) e = absurd (cc)
active_handles_bound (suc i) (g ∷ hs) e = omega (arith, active_handles_bound i hs e)

abbrev IsCounted : Library → Type 0
IsCounted l = (l.counter ≡ active_handles l.handles) × ((l.is_initialized ≡ true) ↔ (0 < l.counter))

opened-IsCounted :
    (init_ok : Bool) (l : Library)
    → IsCounted l
    → IsCounted (get_initialization_context init_ok l).1
unfolding get_initialization_context
opened-IsCounted init_ok l h = ground (arith, h, active_handles-append l.handles (alive true ∷ []))

copied-IsCounted :
    (i : ℕ) (l : Library) {l' : Library} → IsCounted l → copy i l ≡ some l' → IsCounted l'
unfolding copy
copied-IsCounted i l {l' = l'} h e = elim (Option-cases (active_of i l.handles)) [
  | inl missing ↦ absurd (ground (arith, missing, e))
  | inr (active, there) ↦ ground (
    arith,
    there,
    h,
    e,
    active_handles_bound i l.handles there,
    active_handles-append l.handles (alive active ∷ []),
  )
]

moved-IsCounted :
    (i : ℕ) (l : Library) {l' : Library} → IsCounted l → move i l ≡ some l' → IsCounted l'
unfolding move
moved-IsCounted i l {l' = l'} h e = elim (Option-cases (active_of i l.handles)) [
  | inl missing ↦ absurd (ground (arith, missing, e))
  | inr (active, there) ↦ ground (
    arith,
    there,
    h,
    e,
    active_handles-append (put i (alive false) l.handles) (alive active ∷ []),
    active_handles-put i (alive false) l.handles there,
  )
]

assigned-IsCounted :
    (i j : ℕ) (l : Library) {l' : Library}
    → IsCounted l
    → active_of i l.handles ≡ some false
    → assign i j l ≡ some l'
    → IsCounted l'
unfolding assign
assigned-IsCounted i j l {l' = l'} h target e = elim (Option-cases (active_of j l.handles)) [
  | inl missing ↦ absurd (ground (arith, missing, target, e))
  | inr (active, there) ↦ ground (
    arith,
    there,
    target,
    h,
    e,
    active_handles_bound j l.handles there,
    active_handles-put i (alive active) l.handles target,
  )
]

move_assigned-IsCounted :
    (i j : ℕ) (l : Library) {l' : Library}
    → IsCounted l
    → active_of i l.handles ≡ some false
    → i ≢ j
    → move_assign i j l ≡ some l'
    → IsCounted l'
unfolding move_assign
move_assigned-IsCounted i j l {l' = l'} h target other e =
    elim (Option-cases (active_of j l.handles)) [
      | inl missing ↦ absurd (ground (arith, missing, target, e))
      | inr (active, there) ↦ ground (
        arith,
        there,
        target,
        h,
        e,
        active_handles-put i (alive active) l.handles target,
        active_handles-put j (alive false) (put i (alive active) l.handles)
            (active_of-put i j (alive active) l.handles other ∙ there),
      )
    ]

dropped-IsCounted :
    (i : ℕ) (l : Library) {l' : Library} → IsCounted l → destroy i l ≡ some l' → IsCounted l'
unfolding destroy
dropped-IsCounted i l {l' = l'} h e = elim (Option-cases (active_of i l.handles)) [
  | inl missing ↦ absurd (ground (arith, missing, e))
  | inr (true, there) ↦ ground (arith, there, h, e, active_handles-put i destroyed l.handles there)
  | inr (false, there) ↦ ground (arith, there, h, e, active_handles-put i destroyed l.handles there)
]

-- In every state that is reached without an assignment to an active handle, the counter is the number of
-- the active handles, and the library is initialized exactly while there is one.
pub History-counter :
    {l : Library}
    → History l
    → (l.counter ≡ active_handles l.handles) × ((l.is_initialized ≡ true) ↔ (0 < l.counter))
History-counter start = ground arith
History-counter (opened init_ok {l = l} history) =
    opened-IsCounted init_ok l (History-counter history)
History-counter (copied i {l = l} history e) = copied-IsCounted i l (History-counter history) e
History-counter (moved i {l = l} history e) = moved-IsCounted i l (History-counter history) e
History-counter (assigned i j {l = l} history target e) =
    assigned-IsCounted i j l (History-counter history) target e
History-counter (move_assigned i j {l = l} history target other e) =
    move_assigned-IsCounted i j l (History-counter history) target other e
History-counter (dropped i {l = l} history e) = dropped-IsCounted i l (History-counter history) e
