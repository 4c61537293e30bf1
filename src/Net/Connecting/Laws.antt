-- ===== src/Net/Connecting/Laws.antt =====
-- The entries of the operations on connections, and what becomes of a connection that was accepted.
use iouxx.Base.{ℕ, Bool, true, false, ℤ, pos, negsuc, ◌≡◌, refl, sym, ap, ◌∙◌}
use iouxx.Base.Result.{ErrorCode, Expected, ok, unexpected}
use iouxx.Ops.{Sqe, Prep, IsPrep, received, more, Target}
use iouxx.Ops.Laws.{IsAimed, fixed_flag-IsAimed}
use iouxx.Net.Sockets.{Socket, FixedSocket, AnySocket, connection, fixed_connection, target_variant}
use iouxx.Net.SendRecv.{set_socket}
use iouxx.Net.SendRecv
use iouxx.Net.SendRecv.Laws.{IsEntry, index_of, build-IsEntry}
use iouxx.Net.SendRecv.Laws
use iouxx.Net.Connecting.{
  Call, io_uring_prep_listen, io_uring_prep_connect, io_uring_prep_accept,
  io_uring_prep_accept_direct, io_uring_prep_multishot_accept,
  io_uring_prep_multishot_accept_direct, io_uring_prep_shutdown, SocketListen, SocketConnect,
  FixedSocketAccept, SocketShutdown, listen_build, connect_build, accept_build,
  accept_without_peer_build, fixed_accept_build, fixed_accept_without_peer_build,
  multishot_accept_build, fixed_multishot_accept_build, shutdown_build, accept_do_callback,
  accept_without_peer_do_callback, fixed_accept_do_callback, fixed_accept_without_peer_do_callback,
  multishot_accept_do_callback, fixed_multishot_accept_do_callback, accepted, fixed_accepted,
}

-- The nine operations, with their members.
pub data Operation (A : Type 0) : Type 0 where
  listen : SocketListen → Operation A
  connect : ℕ → SocketConnect A → Operation A
  accept accept_without_peer multishot_accept : Socket → Operation A
  fixed_accept fixed_accept_without_peer : FixedSocketAccept → Operation A
  fixed_multishot_accept : FixedSocket → Operation A
  shutdown : SocketShutdown → Operation A

abbrev pub build : {A : Type 0} → Prep (Call A) → Operation A → Sqe (Call A)
build P (listen self) = listen_build P self
build P (connect addrlen self) = connect_build P addrlen self
build P (accept s) = accept_build P s
build P (accept_without_peer s) = accept_without_peer_build P s
build P (multishot_accept s) = multishot_accept_build P s
build P (fixed_accept self) = fixed_accept_build P self
build P (fixed_accept_without_peer self) = fixed_accept_without_peer_build P self
build P (fixed_multishot_accept s) = fixed_multishot_accept_build P s
build P (shutdown self) = shutdown_build P self

abbrev pub fd_of : {A : Type 0} → Call A → ℤ
fd_of (io_uring_prep_listen fd n) = fd
fd_of (io_uring_prep_connect fd addr addrlen) = fd
fd_of (io_uring_prep_accept fd with_address flags) = fd
fd_of (io_uring_prep_accept_direct fd with_address flags file_index) = fd
fd_of (io_uring_prep_multishot_accept fd flags) = fd
fd_of (io_uring_prep_multishot_accept_direct fd flags) = fd
fd_of (io_uring_prep_shutdown fd how) = fd

abbrev plain_target : Socket → Target
plain_target s = record { fd = s.fd; is_fixed = false }

abbrev fixed_target : FixedSocket → Target
fixed_target s = record { fd = s.fd_index; is_fixed = true }

-- The socket that the operation is for.
abbrev pub socket_of : {A : Type 0} → Operation A → Target
unfolding target_variant
socket_of (listen self) = target_variant self.sock
socket_of (connect addrlen self) = target_variant self.sock
socket_of (accept s) = plain_target s
socket_of (accept_without_peer s) = plain_target s
socket_of (multishot_accept s) = plain_target s
socket_of (fixed_accept self) = fixed_target self.sock
socket_of (fixed_accept_without_peer self) = fixed_target self.sock
socket_of (fixed_multishot_accept s) = fixed_target s
socket_of (shutdown self) = self.at

pub build-IsAimed :
    {A : Type 0} (P : Prep (Call A))
    → IsPrep P
    → (op : Operation A) → IsAimed fd_of (socket_of op) (build P op)
unfolding target_variant listen_build connect_build accept_build accept_without_peer_build
    multishot_accept_build fixed_accept_build fixed_accept_without_peer_build
    fixed_multishot_accept_build shutdown_build
build-IsAimed P doc (listen self) =
    fixed_flag-IsAimed fd_of (target_variant self.sock) _ refl (doc.plain _)
build-IsAimed P doc (connect addrlen self) =
    fixed_flag-IsAimed fd_of (target_variant self.sock) _ refl (doc.plain _)
build-IsAimed P doc (accept s) = fixed_flag-IsAimed fd_of (plain_target s) _ refl (doc.plain _)
build-IsAimed P doc (accept_without_peer s) =
    fixed_flag-IsAimed fd_of (plain_target s) _ refl (doc.plain _)
build-IsAimed P doc (multishot_accept s) =
    fixed_flag-IsAimed fd_of (plain_target s) _ refl (doc.plain _)
build-IsAimed P doc (fixed_accept self) =
    fixed_flag-IsAimed fd_of (fixed_target self.sock) _ refl (doc.plain _)
build-IsAimed P doc (fixed_accept_without_peer self) =
    fixed_flag-IsAimed fd_of (fixed_target self.sock) _ refl (doc.plain _)
build-IsAimed P doc (fixed_multishot_accept s) =
    fixed_flag-IsAimed fd_of (fixed_target s) _ refl (doc.plain _)
build-IsAimed P doc (shutdown self) = fixed_flag-IsAimed fd_of self.at _ refl (doc.plain _)

-- The ways to accept, with what their callbacks read.
pub data Accepting (A : Type 0) : Type 0 where
  with_peer : Socket → A → Accepting A
  without_peer : Socket → Accepting A
  in_shots : Socket → ℕ → Accepting A
  fixed_with_peer : FixedSocketAccept → A → Accepting A
  fixed_without_peer : FixedSocketAccept → Accepting A
  fixed_in_shots : FixedSocket → ℕ → Accepting A

abbrev pub is_fixed_way : {A : Type 0} → Accepting A → Bool
is_fixed_way (with_peer s a) = false
is_fixed_way (without_peer s) = false
is_fixed_way (in_shots s flags) = false
is_fixed_way (fixed_with_peer self a) = true
is_fixed_way (fixed_without_peer self) = true
is_fixed_way (fixed_in_shots s flags) = true

abbrev map_ok : {A B : Type 0} → (A → B) → Expected A → Expected B
map_ok f (ok a) = ok (f a)
map_ok f (unexpected ec) = unexpected ec

-- The connection that the callback of that way receives.
abbrev pub told : {A I : Type 0} → (A → I) → Accepting A → ℤ → Expected AnySocket
told from (with_peer s a) ev = map_ok (λ c. connection c.0) (accept_do_callback from s a ev)
told from (without_peer s) ev = map_ok connection (accept_without_peer_do_callback s ev)
told from (in_shots s flags) ev =
    map_ok (λ c. connection c.0) (multishot_accept_do_callback s ev flags)
told from (fixed_with_peer self a) ev =
    map_ok (λ c. fixed_connection c.0) (fixed_accept_do_callback from self a ev)
told from (fixed_without_peer self) ev =
    map_ok fixed_connection (fixed_accept_without_peer_do_callback self ev)
told from (fixed_in_shots s flags) ev =
    map_ok (λ c. fixed_connection c.0) (fixed_multishot_accept_do_callback s ev flags)

ok-ok : {s t : AnySocket} → ok s ≡ ok t → s ≡ t
ok-ok e = cc

unexpected-ok : {ec : ErrorCode} {s : AnySocket} → ¬ (unexpected ec ≡ ok s)
unexpected-ok e = cc

-- The target of what a result was turned into.
set_socket-received :
    {B : Type 0} (g : B → AnySocket) (f : ℕ → B) (fixed : Bool) (ev : ℤ) (s : AnySocket)
    → ((n : ℕ) → set_socket (g (f n)) ≡ record { fd = pos n; is_fixed = fixed })
    → map_ok g (received f ev) ≡ ok s
    → set_socket s ≡ record { fd = ev; is_fixed = fixed }
set_socket-received g f fixed (pos n) s aimed h = ap set_socket (sym (ok-ok h)) ∙ aimed n
set_socket-received g f fixed (negsuc n) s aimed h = absurd (unexpected-ok h)

-- The target of a connection is the result of its accept.
set_socket-told :
    {A I : Type 0} (from : A → I) (way : Accepting A) (ev : ℤ) (s : AnySocket)
    → told from way ev ≡ ok s
    → set_socket s ≡ record { fd = ev; is_fixed = is_fixed_way way }
unfolding set_socket accept_do_callback accept_without_peer_do_callback multishot_accept_do_callback
    fixed_accept_do_callback fixed_accept_without_peer_do_callback
    fixed_multishot_accept_do_callback
set_socket-told from (with_peer l a) ev s h =
    set_socket-received (λ c. connection c.0) (λ n. (accepted l n, from a)) false ev s (λ n. refl) h
set_socket-told from (without_peer l) ev s h =
    set_socket-received connection (accepted l) false ev s (λ n. refl) h
set_socket-told from (in_shots l flags) ev s h =
    set_socket-received (λ c. connection c.0) (λ n. (accepted l n, more flags)) false ev s
      (λ n. refl) h
set_socket-told from (fixed_with_peer self a) ev s h =
    set_socket-received (λ c. fixed_connection c.0) (λ n. (fixed_accepted self.sock n, from a)) true
      ev s (λ n. refl) h
set_socket-told from (fixed_without_peer self) ev s h =
    set_socket-received fixed_connection (fixed_accepted self.sock) true ev s (λ n. refl) h
set_socket-told from (fixed_in_shots l flags) ev s h =
    set_socket-received (λ c. fixed_connection c.0) (λ n. (fixed_accepted l n, more flags)) true ev
      s (λ n. refl) h

-- For a liburing that prepares entries for plain files, the entry of each send or receive operation
-- for the connection that an accept operation was told of, in any of the six ways to accept, has
-- the result of the accept as its handle, is marked as fixed exactly if the way is one for fixed
-- files, and asks for the registered buffer of the operation.
pub build-told :
    {A I M : Type 0} (from : A → I) (P : Prep (SendRecv.Call M))
    → IsPrep P
    → (way : Accepting A) (ev : ℤ) (s : AnySocket) (op : SendRecv.Laws.Operation M)
    → told from way ev ≡ ok s
    → IsEntry
        (record { fd = ev; is_fixed = is_fixed_way way })
        (index_of op)
        (SendRecv.Laws.build P (set_socket s) op)
build-told from P doc way ev s op h =
    rw (sym (set_socket-told from way ev s h)) (build-IsEntry P doc (set_socket s) op)
