-- ===== src/ServerThread/Inflight.antt =====
-- server/thread_pro11.c: the descriptors that a client has sent and that no request has taken yet.
use menano.Prelude.{
  ℕ, suc, Bool, true, false, Option, none, some, List, [], ◌∷◌, ◌++◌, ◌==◌, if◌then◌else◌, get_or,
  set,
}

-- A slot of `inflight`; none is the -1 in `client` and `server`.
pub record Fds : Type 0 where
  pub client : ℕ
  pub server : ℕ

-- The table and the descriptors that were closed.
pub record Table : Type 0 where
  pub slots : List (Option Fds)
  pub closed : List ℕ

abbrev pub is_client : ℕ → Option Fds → Bool
is_client c none = false
is_client c (some f) = f.client == c

abbrev pub is_free : Option Fds → Bool
is_free none = true
is_free (some f) = false

abbrev pub next : Option ℕ → Option ℕ
next none = none
next (some i) = some (suc i)

abbrev pub first : List ℕ → Option ℕ
first [] = none
first (fd ∷ fds) = some fd

abbrev pub is_found : Option ℕ → Bool
is_found none = false
is_found (some i) = true

-- The index of the first slot that passes a test.
unfoldable pub find : (Option Fds → Bool) → List (Option Fds) → Option ℕ
find p [] = none
find p (s ∷ ss) = let rest = find p ss in if p s then some 0 else next rest

abbrev pub server_of : Option Fds → List ℕ
server_of none = []
server_of (some f) = f.server ∷ []

abbrev pub put : ℕ → ℕ → ℕ → Table → Table
put i client server t = record t {
  slots = set t.slots i (some (record { client = client; server = server }));
}

abbrev pub close : List ℕ → Table → Table
close fds t = record t { closed = t.closed ++ fds }

-- What thread_add_inflight_fd does with the slots that it found.
abbrev pub add_at : Option ℕ → Option ℕ → ℕ → ℕ → Table → Option ℕ × Table
add_at (some i) r client server t =
    (some i, put i client server (close (server_of (get_or t.slots i none)) t))
add_at none (some i) client server t = (some i, put i client server t)
add_at none none client server t = (none, close (server ∷ []) t)

-- none is the index -1.
unfoldable pub thread_add_inflight_fd : Option ℕ → Option ℕ → Table → Option ℕ × Table
unfolding find
thread_add_inflight_fd client none t = (none, t)
thread_add_inflight_fd none (some server) t = (none, close (server ∷ []) t)
thread_add_inflight_fd (some client) (some server) t =
    add_at (find (is_client client) t.slots) (find is_free t.slots) client server t

abbrev pub take_at : Option ℕ → Table → Option ℕ × Table
take_at none t = (none, t)
take_at (some i) t =
    (first (server_of (get_or t.slots i none)), record t { slots = set t.slots i none })

-- `incoming` are the messages that receive_fd finds in the socket, each the descriptor of the
-- client and its own; it fails when there are none.
unfoldable pub thread_get_inflight_fd : ℕ → List Fds → Table → Option ℕ × (List Fds × Table)
unfolding find thread_add_inflight_fd
thread_get_inflight_fd client [] t =
    let r = take_at (find (is_client client) t.slots) t in (r.0, ([], r.1))
thread_get_inflight_fd client (f ∷ fs) t =
    let r = take_at (find (is_client client) t.slots) t in
    let rest =
      thread_get_inflight_fd client fs
        (thread_add_inflight_fd (some f.client) (some f.server) t).1 in
    if is_found (find (is_client client) t.slots) then (r.0, (f ∷ fs, r.1)) else rest
