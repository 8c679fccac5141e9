-- ===== src/Listener.antt =====
-- qntsrv.cpp: the classes `ListenServer` and `SignalHandler`. Clients are numbered in the order of their
-- construction; the acceptor of boost calls the handler once for each `async_accept`, with an error or
-- without.
use quintses.Common.{
  ℕ, zero, suc, ◌+◌, ◌≡◌, refl, ap, sym, ◌∙◌, Bool, true, false, not, List, [], ◌∷◌, ◌++◌, arith,
  if◌then◌else◌,
}
use mathlib.Core.List.{append_assoc, append-nil}
use quintses.Messages.Server.{ServerMsg, shutdown}

-- `next_client` is the client that the acceptor waits with, `spun_up` those that `spinup` has been
-- called for, and `accepting` says whether an `async_accept` is under way.
pub record ListenServer : Type 0 where
  pub next_client : ℕ
  pub spun_up : List ℕ
  pub accepting : Bool

-- The constructor.
unfoldable pub listen : ListenServer
listen = record { next_client = 0; spun_up = []; accepting = true }

-- `handleAccept`, as it ends: without an error it calls `async_accept` again.
unfoldable pub handle_accept : Bool → ListenServer → ListenServer
handle_accept error l =
    if not error
    then record {
      next_client = l.next_client + 1;
      spun_up = l.spun_up ++ l.next_client ∷ [];
      accepting = true;
    }
    else record l { accepting = false }

-- `SignalHandler::signal`, on the messages of the server.
unfoldable pub signal : List ServerMsg → List ServerMsg
signal queue = queue ++ shutdown 0 ∷ []

-- What the acceptor reports, as far as it is asked.
unfoldable pub accept_all : List Bool → ListenServer → ListenServer
unfolding handle_accept
accept_all [] l = l
accept_all (error ∷ errors) l =
    let rest = accept_all errors (handle_accept error l) in if l.accepting then rest else l

-- How many reports come before the first error, and whether there is one.
abbrev pub accepted : List Bool → ℕ
accepted [] = 0
accepted (error ∷ errors) = if error then 0 else suc (accepted errors)

abbrev pub has_error : List Bool → Bool
has_error [] = false
has_error (error ∷ errors) = if error then true else has_error errors

-- `n` clients from one on.
abbrev pub numbered : ℕ → ℕ → List ℕ
numbered zero from = []
numbered (suc n) from = from ∷ numbered n (suc from)

accept_all_deaf :
    (errors : List Bool) (l : ListenServer) → l.accepting ≡ false → accept_all errors l ≡ l
unfolding accept_all
accept_all_deaf [] l h = refl
accept_all_deaf (error ∷ errors) l h = rw h refl

-- Whatever the acceptor reports, the server spins up one client for each report before the first
-- error, in order, each of them once and none of them the client that it waits with; from the first
-- error on it accepts nothing.
pub accept_all-numbered :
    (errors : List Bool) (l : ListenServer)
    → l.accepting ≡ true
    → let l' = accept_all errors l in
      (l'.spun_up ≡ l.spun_up ++ numbered (accepted errors) l.next_client)
      × (l'.next_client ≡ l.next_client + accepted errors)
      × (l'.accepting ≡ not (has_error errors))
unfolding accept_all handle_accept
accept_all-numbered [] l h = (sym (append-nil l.spun_up), omega arith, h)
accept_all-numbered (true ∷ errors) l h =
    let deaf = accept_all_deaf errors (handle_accept true l) refl in
    rw (h, deaf) (sym (append-nil l.spun_up), omega arith, refl)
accept_all-numbered (false ∷ errors) l h =
    let (spun, waits, hears) = accept_all-numbered errors (handle_accept false l) refl in
    let later : suc l.next_client ≡ l.next_client + 1 = omega arith in
    rw h (
      spun
          ∙ append_assoc l.spun_up (l.next_client ∷ [])
              (numbered (accepted errors) (l.next_client + 1))
          ∙ ap (λ n. l.spun_up ++ l.next_client ∷ numbered (accepted errors) n) (sym later),
      omega (arith, waits),
      hears,
    )
