-- ===== src/Client/Socks/Owned.antt =====
-- Who ends a connection of the client before its forwarding starts, in every order of the
-- completions (client.cpp).
use kcp_proxy_cpp.Base.{
  ℕ, ◌+◌, ◌≤◌, ◌≡◌, refl, ◌⊎◌, Bool, true, false, List, length, Option, some, none, arith,
}
use kcp_proxy_cpp.Address.{Asio}
use kcp_proxy_cpp.Tunnel.Read.{Completion, fwd_buf_size}
use kcp_proxy_cpp.Client.Socks.{
  Stage, connecting, reads_greeting, refuses, reads_header, answers, writes_reply, reads_methods,
  selects, reads_address, reads_domain, reads_reply, Local, connecting_local, addr_bytes,
  on_kcp_connected, on_greeting, on_methods, on_method_written, on_header, on_address, on_domain,
  on_reply_read, on_refusal_written, on_reply_written, on_deadline, on_reply_deadline,
}
use kcp_proxy_cpp.Client.Socks.Keeps.{
  Inv, fits, on_kcp_connected-Inv, on_greeting-Inv, on_methods-Inv, on_method_written-Inv,
  on_header-Inv, on_address-Inv, on_domain-Inv, on_reply_read-Inv, on_refusal_written-Inv,
  on_reply_written-Inv, on_deadline-Inv, on_reply_deadline-Inv,
}

-- A read of this many bytes fails, or has them all.
abbrev pub Reads : ℕ → Option (List ℕ) → Type 0
Reads n none = Unit
Reads n (some bytes) = length bytes ≡ n

module _ (asio : Asio) where
  -- One completion: that of the outstanding operation, or of a timer that is armed.
  pub data Step : Local → Local → Type 0 where
    kcp_connected : (s : Local) (ok : Bool) → s.stage ≡ connecting → Step s (on_kcp_connected s ok)
    greeting :
        (s : Local) (got : Option (List ℕ))
        → s.stage ≡ reads_greeting
        → Reads 2 got
        → Step s (on_greeting s got)
    refusal_written : (s : Local) → s.stage ≡ refuses → Step s (on_refusal_written s)
    methods :
        (s : Local) (n : ℕ) (got : Option (List ℕ))
        → s.stage ≡ reads_methods n
        → Reads n got
        → Step s (on_methods s got)
    method_written :
        (s : Local) (offered failed : Bool)
        → s.stage ≡ selects offered
        → Step s (on_method_written s offered failed)
    header :
        (s : Local) (got : Option (List ℕ))
        → s.stage ≡ reads_header
        → Reads 4 got
        → Step s (on_header s got)
    address :
        (s : Local) (cmd atyp : ℕ) (got : Option (List ℕ))
        → s.stage ≡ reads_address cmd atyp
        → Reads (addr_bytes atyp) got
        → Step s (on_address asio s cmd atyp got)
    domain :
        (s : Local) (cmd dlen : ℕ) (got : Option (List ℕ))
        → s.stage ≡ reads_domain cmd dlen
        → Reads (dlen + 2) got
        → Step s (on_domain asio s cmd dlen got)
    error_written : (s : Local) → s.stage ≡ answers → Step s (on_refusal_written s)
    reply :
        (s : Local) (accum : List ℕ) (got : Completion)
        → s.stage ≡ reads_reply accum
        → Step s (on_reply_read asio s accum got)
    reply_written :
        (s : Local) (failed : Bool) → s.stage ≡ writes_reply → Step s (on_reply_written s failed)
    deadline_ends : (s : Local) (was_aborted : Bool) → Step s (on_deadline s was_aborted)
    reply_deadline_ends :
        (s : Local) (was_aborted : Bool)
        → s.reply_deadline ≡ true
        → Step s (on_reply_deadline s was_aborted)

  pub data Reach : Local → Type 0 where
    start : Reach connecting_local
    next : (s t : Local) → Reach s → Step s t → Reach t

  Step-Inv : (s t : Local) → Step s t → Inv s → Inv t
  Step-Inv _ _ (kcp_connected s ok e) i = on_kcp_connected-Inv s ok e i
  Step-Inv _ _ (greeting s got e r) i = on_greeting-Inv s got e i
  Step-Inv _ _ (refusal_written s e) i = on_refusal_written-Inv s i
  Step-Inv _ _ (methods s n got e r) i = on_methods-Inv s n got e i
  Step-Inv _ _ (method_written s offered failed e) i = on_method_written-Inv s offered failed e i
  Step-Inv _ _ (header s got e r) i = on_header-Inv s got e i
  Step-Inv _ _ (address s cmd atyp got e r) i = on_address-Inv asio s cmd atyp got e i
  Step-Inv _ _ (domain s cmd dlen got e r) i = on_domain-Inv asio s cmd dlen got e i
  Step-Inv _ _ (error_written s e) i = on_refusal_written-Inv s i
  Step-Inv _ _ (reply s accum got e) i = on_reply_read-Inv asio s accum got e i
  Step-Inv _ _ (reply_written s failed e) i = on_reply_written-Inv s failed e i
  Step-Inv _ _ (deadline_ends s was_aborted) i = on_deadline-Inv s was_aborted i
  Step-Inv _ _ (reply_deadline_ends s was_aborted e) i = on_reply_deadline-Inv s was_aborted e i

  Reach-Inv : (s : Local) → Reach s → Inv s
  Reach-Inv _ start = record {
    owned = refl;
    last = refl;
    bounded = refl;
    one_answer = omega arith;
    no_answer = refl;
    one_method = omega arith;
    no_method = refl;
  }
  Reach-Inv t (next s _ reached step) = Step-Inv s t step (Reach-Inv s reached)

  -- Both ends are open and the deadline that closes them is armed; or the connection went over to
  -- the forwarding loops; or the deadline of the last write is armed; or both ends are closed.
  abbrev pub IsOwned : Local → Type 0
  IsOwned s =
      ((s.deadline ≡ true) × (s.local_open ≡ true) × (s.session_open ≡ true))
      ⊎ (s.forwarding ≡ true)
      ⊎ (s.reply_deadline ≡ true)
      ⊎ ((s.local_open ≡ false) × (s.session_open ≡ false))

  -- The bytes of the server's reply that wait for the rest of it.
  abbrev pub held : Stage → ℕ
  held (reads_reply accum) = length accum
  held _ = 0

  held-le : (stage : Stage) → fits stage ≡ true → held stage ≤ fwd_buf_size
  held-le (reads_reply accum) e = ground (arith, e)
  held-le _ e = omega arith

  -- Whatever happens, the application is told at most one method and at most one reply to its
  -- request, and at most 16384 bytes of the server's reply are held.
  pub Reach-answers :
      (s : Local)
      → Reach s
      → (length s.selected ≤ 1) × (length s.answered ≤ 1) × (held s.stage ≤ fwd_buf_size)
  Reach-answers s reached =
      let i = Reach-Inv s reached in (i.one_method, i.one_answer, held-le s.stage i.bounded)
