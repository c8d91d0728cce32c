-- ===== src/Cli/Log/Restored.antt =====
-- What is left of the subscribers when some are resumed after all were suspended.
use no.Prelude.{
  ℕ, Bool, false, not, ◌&&◌, ◌||◌, List, [], ◌∷◌, ◌++◌, ◌≡◌, refl, ap, sym, ◌∙◌, subst, arith, map,
  ◌==◌,
}
use no.Prelude.Dict.{IsFresh, HasDistinctKeys}
use no.Cli.Log.{
  Subscribers, id_key, without, resumed, all_suspended, Logger, LoggerLaws, ids_where, resume_all,
}

abbrev listed : ℕ → List ℕ → Bool
listed i [] = false
listed i (j ∷ ids) = i == j || listed i ids

-- Resuming leaves the flag of those that are not listed.
abbrev left : List ℕ → Subscribers → Subscribers
left ids us = map (λ u. (u.0, not (listed u.0 ids) && u.1)) us

left_none : (us : Subscribers) → left [] us ≡ us
left_none [] = refl
left_none ((i, suspended) ∷ us) = ap (λ l. (i, suspended) ∷ l) (left_none us)

left_more : (i : ℕ) (ids : List ℕ) (us : Subscribers) → left ids (resumed i us) ≡ left (i ∷ ids) us
left_more i ids [] = refl
left_more i ids ((j, suspended) ∷ us) = ground (arith, left_more i ids us)

IsFresh-listed :
    (picked : Bool → Bool) (i : ℕ) (us : Subscribers)
    → IsFresh i us
    → listed i (ids_where picked us) ≡ false
IsFresh-listed picked i [] h = refl
IsFresh-listed picked i ((j, suspended) ∷ us) h =
    ground (arith, h.0, IsFresh-listed picked i us h.1)

-- What the flags become, when the picked ones are resumed.
abbrev pub outcome : (Bool → Bool) → Subscribers → Subscribers
outcome picked us = map (λ u. (u.0, not (picked u.1))) us

-- Identifiers that stand nowhere in the list change nothing.
left_fresh :
    (i : ℕ) (ids : List ℕ) (us : Subscribers) → IsFresh i us → left (i ∷ ids) us ≡ left ids us
left_fresh i ids [] h = refl
left_fresh i ids ((j, suspended) ∷ us) h = ground (arith, h.0, left_fresh i ids us h.1)

IsFresh-all_suspended : (i : ℕ) (us : Subscribers) → IsFresh i us → IsFresh i (all_suspended us)
IsFresh-all_suspended i [] h = tt
IsFresh-all_suspended i ((j, suspended) ∷ us) h = (h.0, IsFresh-all_suspended i us h.1)

left-outcome :
    (picked : Bool → Bool) (us : Subscribers)
    → HasDistinctKeys us
    → left (ids_where picked us) (all_suspended us) ≡ outcome picked us
left-outcome picked [] h = refl
left-outcome picked ((i, suspended) ∷ us) h =
    let fresh =
      left_fresh i (ids_where picked us) (all_suspended us) (IsFresh-all_suspended i us h.0) in
    ground (arith, fresh, left-outcome picked us h.1, IsFresh-listed picked i us h.0)

without_last : (i : ℕ) (us : Subscribers) → IsFresh i us → without i (us ++ (i, false) ∷ []) ≡ us
without_last i [] h = ground arith
without_last i ((j, suspended) ∷ us) h = ground (arith, h.0, without_last i us h.1)

module _ {S : Type 0} (log : Logger S) (laws : LoggerLaws log) where
  resume_all_lem :
      (ids : List ℕ) (s : S) → log.subscribers (resume_all log ids s) ≡ left ids (log.subscribers s)
  resume_all_lem [] s = sym (left_none (log.subscribers s))
  resume_all_lem (i ∷ ids) s =
      resume_all_lem ids (log.resume i s)
      ∙ ap (left ids) (laws.resumes i s)
      ∙ left_more i ids (log.subscribers s)

  -- Where all subscribers are suspended, one is added and taken away again, and the picked ones are
  -- resumed at the end.
  pub restored :
      (picked : Bool → Bool) (s later : S)
      → HasDistinctKeys (log.subscribers s)
      → log.subscribers later ≡ log.subscribers (log.subscribe (log.suspend_all s)).1
      → log.subscribers (
          resume_all log
            (ids_where picked (log.subscribers s))
            (log.unsubscribe (log.subscribe (log.suspend_all s)).0 later))
        ≡ outcome picked (log.subscribers s)
  restored picked s later distinct same =
      let us = log.subscribers s in
      let (id, with_id) = log.subscribe (log.suspend_all s) in
      let there : log.subscribers later ≡ all_suspended us ++ (id, false) ∷ [] =
        same
        ∙ laws.subscribes (log.suspend_all s)
        ∙ ap (λ vs. vs ++ (id, false) ∷ []) (laws.suspends s) in
      let fresh : IsFresh id (all_suspended us) =
        subst (IsFresh id) (laws.suspends s) (laws.fresh (log.suspend_all s)) in
      resume_all_lem (ids_where picked us) (log.unsubscribe id later)
      ∙ ap (left (ids_where picked us)) (
          laws.unsubscribes id later
          ∙ ap (without id) there
          ∙ without_last id (all_suspended us) fresh)
      ∙ left-outcome picked us distinct

  -- Where one subscriber is added and taken away again, the others are as before.
  pub untouched :
      (s later : S)
      → log.subscribers later ≡ log.subscribers (log.subscribe s).1
      → log.subscribers (log.unsubscribe (log.subscribe s).0 later) ≡ log.subscribers s
  untouched s later same =
      let (id, with_id) = log.subscribe s in
      let there = same ∙ laws.subscribes s in
      laws.unsubscribes id later
      ∙ ap (without id) there
      ∙ without_last id (log.subscribers s) (laws.fresh s)

pub outcome-not : (us : Subscribers) → outcome not us ≡ us
outcome-not [] = refl
outcome-not ((i, suspended) ∷ us) = ground (arith, outcome-not us)
