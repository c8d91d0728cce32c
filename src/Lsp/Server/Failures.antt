-- ===== src/Lsp/Server/Failures.antt =====
-- When the loop ends, and that it stays ended.
use no.Prelude.{
  ℕ, zero, suc, Bool, true, false, ◌||◌, List, [], ◌∷◌, ◌≡◌, refl, ap, ◌∙◌, arith, All,
}
use no.Lsp.Server.{
  suspended, running, exited, Server, Turn, read_failed, scheduled, turn, turns, begin, start,
  suspend, resume, stop,
}

abbrev pub is_exited : Server → Bool
is_exited s = elim s.state [ suspended ↦ false | running ↦ false | exited ↦ true ]

-- The first `n` turns fail.
unfoldable pub fails_first : ℕ → List Turn → Bool
fails_first zero ts = true
fails_first (suc n) [] = false
fails_first (suc n) (scheduled b ∷ ts) = false
fails_first (suc n) (read_failed ∷ ts) = fails_first n ts

-- Four turns one behind the other fail.
unfoldable pub four_failures : List Turn → Bool
unfolding fails_first
four_failures [] = false
four_failures (t ∷ ts) = fails_first 4 (t ∷ ts) || four_failures ts

unfoldable pub exit_wanted : List Turn → Bool
exit_wanted [] = false
exit_wanted (read_failed ∷ ts) = exit_wanted ts
exit_wanted (scheduled b ∷ ts) = b || exit_wanted ts

fails_first_less :
    (n : ℕ) (ts : List Turn) → fails_first (suc n) ts ≡ true → fails_first n ts ≡ true
unfolding fails_first
fails_first_less zero ts h = refl
fails_first_less (suc n) [] h = ground (arith, h)
fails_first_less (suc n) (scheduled b ∷ ts) h = ground (arith, h)
fails_first_less (suc n) (read_failed ∷ ts) h = fails_first_less n ts h

exited_stays : (ts : List Turn) (s : Server) → s.state ≡ exited → (turns ts s).state ≡ exited
unfolding turns turn
exited_stays [] s e = e
exited_stays (t ∷ ts) s e = exited_stays ts (turn t s) (rw (e, turn) e)

abbrev after_failures : ℕ → Server
after_failures n = record { state = running; sucessive_failed_request_count = n }

-- The first four fail only if some four do.
first_four : (ts : List Turn) → (fails_first 4 ts || four_failures ts) ≡ four_failures ts
unfolding fails_first four_failures
first_four [] = refl
first_four (t ∷ ts) = ground arith

-- With `n` failures behind it.
abbrev Ends : ℕ → ℕ → List Turn → Type 0
Ends n left ts =
    is_exited (turns ts (after_failures n))
    ≡ (exit_wanted ts || (fails_first left ts || four_failures ts))

ended :
    (ts : List Turn) (n : ℕ)
    → is_exited (turns ts (record { state = exited; sucessive_failed_request_count = n })) ≡ true
ended ts n =
    let stays =
      exited_stays ts (record { state = exited; sucessive_failed_request_count = n }) refl in
    rw (stays, is_exited) refl

ends : (ts : List Turn) → Ends 0 4 ts × Ends 1 3 ts × Ends 2 2 ts × Ends 3 1 ts
unfolding turns turn exit_wanted fails_first four_failures
ends [] = (refl, refl, refl, refl)
ends (read_failed ∷ ts) =
    ground (arith, ends ts, ended ts 4, fails_first_less 1 ts, fails_first_less 2 ts)
ends (scheduled true ∷ ts) = (ended ts 0, ended ts 0, ended ts 0, ended ts 0)
ends (scheduled false ∷ ts) = ground (arith, (ends ts).0, first_four ts)

-- A server that was started ends by itself exactly if, in the turns that it takes, a request makes the
-- scheduler ask for it or four reads fail one behind the other; three failures and a success do not
-- count towards it.
pub start-is_exited :
    (ts : List Turn) (s : Server) → is_exited (start ts s) ≡ (exit_wanted ts || four_failures ts)
unfolding start
start-is_exited ts s = (ends ts).0 ∙ ap (λ b. exit_wanted ts || b) (first_four ts)

-- What the loop and the other threads do to the server.
pub data Event : Type 0 where
  begins : Event
  turns_once : Turn → Event
  suspends : Event
  resumes : Event
  stops : Event

unfoldable pub happen : Event → Server → Server
happen begins s = begin s
happen (turns_once t) s = turn t s
happen suspends s = (suspend s).0
happen resumes s = (resume s).0
happen stops s = (stop s).0

unfoldable pub happen_all : List Event → Server → Server
happen_all [] s = s
happen_all (e ∷ es) s = happen_all es (happen e s)

abbrev pub is_start : Event → Bool
is_start begins = true
is_start _ = false

happen_exited :
    (e : Event) (s : Server) → is_start e ≡ false → s.state ≡ exited → (happen e s).state ≡ exited
unfolding happen turn suspend resume stop
happen_exited begins s other h = absurd (cc)
happen_exited (turns_once t) s other h = rw (h, turn) h
happen_exited suspends s other h = rw (h, suspend) refl
happen_exited resumes s other h = rw (h, resume) refl
happen_exited stops s other h = refl

happen_all_exited :
    (es : List Event) (s : Server)
    → All (λ e. is_start e ≡ false) es
    → s.state ≡ exited
    → (happen_all es s).state ≡ exited
unfolding happen_all
happen_all_exited [] s others e = e
happen_all_exited (v ∷ es) s others e =
    happen_all_exited es (happen v s) others.1 (happen_exited v s others.0 e)

-- Once `Stop` was called, the server stays ended as long as nobody calls `Start` again: whatever turns
-- and other calls follow, and `Suspend` and `Resume` then answer false. After a new call of `Start` it
-- runs.
pub happen_all-stop :
    (es : List Event) (s : Server)
    → All (λ e. is_start e ≡ false) es
    → let s' = happen_all es (stop s).0 in
      (s'.state ≡ exited)
      × ((suspend s').1 ≡ false)
      × ((resume s').1 ≡ false)
      × ((happen begins s').state ≡ running)
unfolding stop suspend resume happen
happen_all-stop es s others =
    let stays = happen_all_exited es (stop s).0 others refl in
    (stays, rw (stays, suspend) refl, rw (stays, resume) refl, refl)
