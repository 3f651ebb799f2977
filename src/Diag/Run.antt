-- ===== src/Diag/Run.antt =====
-- DiagServer::Run of ara/diag/diag_server.cpp: the socket that listens and the accept loop over
-- the connections that come. What the system answers is an argument.
use minimal_autosar_adaptive.Prelude.{
  ◌+◌, zero, suc, subst, ◌*◌, ◌/◌, ◌%◌, ◌≤◌, length, Option-cases, inl, inr, ℕ, ◌≡◌, refl, ◌∙◌,
  Bool, not, ◌&&◌, nat_eq, ◌==◌, Bytes, String, List, [], ◌∷◌, ◌++◌, Option, none, some, arith,
  codes, if◌then◌else◌,
}
use minimal_autosar_adaptive.Diag.Server.{
  Server, answer, write_response, dispatch, take, pick_port, serve,
}

-- What socket, inet_pton, bind and listen answer.
pub record Net : Type 0 where
  pub opens : Bool
  pub parses : String → Bool
  pub binds : String → ℕ → Bool
  pub listens : Bool

abbrev pub default_addr : String
default_addr = "127.0.0.1"

-- The address and the port that are listened on; a port of 0 is one that is picked.
unfoldable pub bound_to : Option String → ℕ → String × ℕ
bound_to bind_addr port = (
  elim bind_addr [ none ↦ default_addr | some b ↦ b ],
  if port == 0 then pick_port (codes "app") else port,
)

-- What Run does to its sockets: it listens, it opens and closes the listening socket and those of
-- the connections, and writes to the last one accepted.
pub data Act : Type 0 where
  opened : Act
  listening : Act
  accepted : Act
  wrote : Bytes → Act
  closed : Act

-- The header and, if there are any, the bytes of the response. Both writes are taken to be complete:
-- their results are not looked at.
unfoldable pub writes : Bytes → List Act
writes (hi ∷ lo ∷ []) = wrote (hi ∷ lo ∷ []) ∷ []
writes (hi ∷ lo ∷ rsp) = wrote (hi ∷ lo ∷ []) ∷ wrote rsp ∷ []
writes _ = []

-- One round of the accept loop: `none` where accept fails, or else what the connection's reads
-- deliver.
unfoldable pub connection : Option (Bytes × (ℕ → Bytes)) → Server → List Act
unfolding writes
connection none s = []
connection (some (hdr, body)) s = elim (serve hdr body s) [
  | none ↦ accepted ∷ closed ∷ []
  | some out ↦ accepted ∷ (writes out ++ closed ∷ [])
]

unfoldable pub accept_loop : List (Option (Bytes × (ℕ → Bytes))) → Server → List Act
unfolding connection
accept_loop [] s = []
accept_loop (c ∷ cs) s = connection c s ++ accept_loop cs s

-- The loop goes on for ever; it is watched over the connections given.
unfoldable pub serve_all :
    Net → Option String → ℕ → List (Option (Bytes × (ℕ → Bytes))) → Server → List Act
unfolding bound_to accept_loop
serve_all net bind_addr port cs s =
    let (addr, p) = bound_to bind_addr port in
    if not net.opens
    then []
    else if not (net.parses addr)
    then opened ∷ closed ∷ []
    else if not (net.binds addr p)
    then opened ∷ closed ∷ []
    else if not net.listens
    then opened ∷ closed ∷ []
    else opened ∷ listening ∷ accept_loop cs s

-- The sockets as a state machine: none, one that is open, one that listens, and with it a
-- connection, before its answer, owed as many bytes as its header says, and after its answer.
pub data Sockets : Type 0 where
  idle made up talking answered : Sockets
  owed : ℕ → Sockets

-- What may be done in a state, and the state afterwards.
pub next_state : Act → Sockets → Option Sockets
next_state opened idle = some made
next_state listening made = some up
next_state closed made = some idle
next_state accepted up = some talking
next_state closed talking = some up
next_state (wrote (hi ∷ lo ∷ [])) talking =
    let n = hi * 256 + lo in some (if n == 0 then answered else owed n)
next_state (wrote bytes) (owed n) = if length bytes == n then some answered else none
next_state closed answered = some up
next_state _ _ = none

pub after_all : List Act → Sockets → Option Sockets
after_all [] st = some st
after_all (a ∷ acts) st = elim (next_state a st) [ none ↦ none | some st' ↦ after_all acts st' ]

after_all-append :
    (xs ys : List Act) (st mid : Sockets)
    → after_all xs st ≡ some mid
    → after_all (xs ++ ys) st ≡ after_all ys mid
unfolding after_all
after_all-append [] ys st mid h = ground arith
after_all-append (x ∷ xs) ys st mid h = elim (Option-cases (next_state x st)) [
  | inl e ↦ absurd (ground (arith, e, h))
  | inr (st', e) ↦
      let rest = after_all-append xs ys st' mid (ground (arith, e, h)) in ground (arith, e, rest)
]

-- What is served is a header and as many bytes as it says.
IsFramed : Bytes → Type 0
IsFramed out =
    (hi : ℕ) × (lo : ℕ) × (rsp : Bytes) × (out ≡ hi ∷ lo ∷ rsp) × (length rsp ≡ hi * 256 + lo)

length-take : (n : ℕ) (xs : Bytes) → n ≤ length xs → length (take n xs) ≡ n
length-take zero xs h = refl
length-take (suc n) [] h = absurd (omega arith)
length-take (suc n) (x ∷ xs) h = let ih = length-take n xs (omega arith) in omega (arith, ih)

write_response-IsFramed : (rsp : Bytes) → IsFramed (write_response rsp)
unfolding write_response IsFramed
write_response-IsFramed rsp =
    let rlen = length rsp % 65536 in
    (rlen / 256, rlen % 256, take rlen rsp, refl, length-take rlen rsp (omega arith) ∙ omega arith)

answer-IsFramed : (req : Bytes) (s : Server) (out : Bytes) → answer req s ≡ some out → IsFramed out
unfolding answer
answer-IsFramed [] s out h = absurd (ground arith)
answer-IsFramed (sid ∷ args) s out h =
    subst IsFramed (ground arith) (write_response-IsFramed (dispatch sid args s))

serve-IsFramed :
    (hdr : Bytes) (body : ℕ → Bytes) (s : Server) (out : Bytes)
    → serve hdr body s ≡ some out
    → IsFramed out
unfolding serve
serve-IsFramed [] body s out h = absurd (ground arith)
serve-IsFramed (hi ∷ []) body s out h = absurd (ground arith)
serve-IsFramed (hi ∷ lo ∷ []) body s out h =
    let req = body ((hi * 256 + lo) % 65536) in answer-IsFramed req s out (ground arith)
serve-IsFramed (hi ∷ lo ∷ b ∷ more) body s out h = absurd (ground arith)

writes-up :
    (hi lo : ℕ) (rsp : Bytes)
    → length rsp ≡ hi * 256 + lo
    → after_all (accepted ∷ (writes (hi ∷ lo ∷ rsp) ++ closed ∷ [])) up ≡ some up
unfolding after_all next_state writes
writes-up hi lo [] h = ground arith
writes-up hi lo (b ∷ rsp) h = ground arith

connection-up :
    (c : Option (Bytes × (ℕ → Bytes))) (s : Server) → after_all (connection c s) up ≡ some up
unfolding connection IsFramed
connection-up none s = unfold after_all in refl
connection-up (some (hdr, body)) s = elim (Option-cases (serve hdr body s)) [
  | inl e ↦ rw (connection, e) (unfold after_all next_state in refl)
  | inr (out, e) ↦
      let (hi, lo, rsp, framed, enough) = serve-IsFramed hdr body s out e in
      rw (connection, e, framed) (writes-up hi lo rsp enough)
]

accept_loop-up :
    (cs : List (Option (Bytes × (ℕ → Bytes)))) (s : Server)
    → after_all (accept_loop cs s) up ≡ some up
unfolding accept_loop
accept_loop-up [] s = unfold after_all in refl
accept_loop-up (c ∷ cs) s =
    after_all-append (connection c s) (accept_loop cs s) up up (connection-up c s)
    ∙ accept_loop-up cs s

-- Whatever the system answers and the clients send, the server accepts only while it listens and
-- holds no other connection, writes to a connection nothing or a header and then, if the header
-- says that there are any, exactly as many bytes as it says, and closes each connection that it
-- accepts; a listening socket stays only where all of the set-up succeeds, and is closed where a
-- step fails. Writes are taken to be complete.
pub serve_all-after_all :
    (net : Net) (bind_addr : Option String) (port : ℕ) (cs : List (Option (Bytes × (ℕ → Bytes))))
    (s : Server)
    → let (addr, p) = bound_to bind_addr port in
      after_all (serve_all net bind_addr port cs s) idle
      ≡ some
          (if net.opens && (net.parses addr && (net.binds addr p && net.listens)) then up else idle)
unfolding serve_all after_all next_state
serve_all-after_all net bind_addr port cs s = ground (arith, accept_loop-up cs s)
