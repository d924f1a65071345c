-- ===== src/Client/Forward/Reclaim.antt =====
-- A half-closed tunnel is reclaimed, in every order of the completions (client.cpp).
use kcp_proxy_cpp.Base.{
  ℕ, ◌+◌, ◌≤◌, ◌≡◌, ◌⊎◌, Bool, true, false, not, ◌&&◌, ◌||◌, ◌==◌, leb, if◌then◌else◌, List, [],
  ◌∷◌, length, length-append, Option, none, some, ap, suc, arith,
}
use kcp_proxy_cpp.Config.Tuning.{KcpTuning}
use kcp_proxy_cpp.Tunnel.Read.{Completion, delivered}
use kcp_proxy_cpp.Client.Forward.{
  Forward, AppRead, app_closed, read_failed, app_bytes, close_both, forward_kcp_to_client,
  on_kcp_read, on_app_written, grace_us, on_half_close_check, forward_client_to_kcp, on_resume,
  on_app_read,
}

module _ (tuning : KcpTuning) (half_close_grace_sec : ℕ) where
  abbrev pub grace : ℕ
  grace = grace_us tuning half_close_grace_sec

  -- A deadline that is armed, and no later than the grace after this time.
  abbrev pub due_by : Option ℕ → ℕ → Bool
  due_by none last = false
  due_by (some due) last = leb due (last + grace)

  -- The application has closed its side, and the session lives.
  abbrev pub is_half_closed : Forward → Bool
  is_half_closed s = s.app_eof && s.connected

  abbrev to_kcp : Forward → ℕ
  to_kcp s = s.reads_app + (if s.parked then 1 else 0)

  -- When the target was heard last: the application closes its side, or a payload comes.
  abbrev pub heard_app : AppRead → ℕ → ℕ → ℕ
  heard_app app_closed now last = now
  heard_app _ now last = last

  abbrev pub heard_kcp : Completion → ℕ → ℕ → ℕ
  heard_kcp (delivered bytes) now last = if length bytes == 0 then last else now
  heard_kcp _ now last = last

  record Inv (s : Forward) (last : ℕ) : Type 0 where
    upward : to_kcp s ≤ 1
    downward : s.reads_kcp + length s.writes ≤ 1
    reclaimed : (not (is_half_closed s) || due_by s.grace last) ≡ true
    tracked : (not s.app_eof || (s.last_progress_us == last)) ≡ true
    finished : (not (is_half_closed s) || not s.peer_fin) ≡ true

  module _ (s : Forward) (last : ℕ) (i : Inv s last) where
    forward_client_to_kcp-Inv :
        (backlog : ℕ)
        → to_kcp s ≡ 0
        → Inv (forward_client_to_kcp tuning half_close_grace_sec s backlog) last
    unfolding forward_client_to_kcp
    forward_client_to_kcp-Inv backlog none_left = ground arith

    on_resume-Inv :
        (gone : Bool) (backlog : ℕ)
        → s.parked ≡ true
        → Inv (on_resume tuning half_close_grace_sec s gone backlog) last
    unfolding on_resume
    on_resume-Inv gone backlog parked = ground arith

    on_app_read-Inv :
        (got : AppRead) (now backlog : ℕ)
        → 1 ≤ s.reads_app
        → last ≤ now
        → Inv (on_app_read tuning half_close_grace_sec s got now backlog) (heard_app got now last)
    unfolding on_app_read
    on_app_read-Inv app_closed now backlog waited later = ground arith
    on_app_read-Inv read_failed now backlog waited later = ground arith
    on_app_read-Inv (app_bytes bytes) now backlog waited later = ground arith

    on_kcp_read-Inv :
        (got : Completion) (now : ℕ)
        → 1 ≤ s.reads_kcp
        → last ≤ now
        → Inv (on_kcp_read s got now) (heard_kcp got now last)
    unfolding on_kcp_read
    on_kcp_read-Inv (delivered bytes) now waited later =
        ground (arith, length-append s.writes (bytes ∷ []))
    on_kcp_read-Inv _ now waited later = ground arith

    on_app_written-Inv :
        (b : List ℕ) (rest : List (List ℕ)) (failed : Bool)
        → s.writes ≡ b ∷ rest
        → Inv (on_app_written s rest failed) last
    unfolding on_app_written
    on_app_written-Inv b rest failed oldest =
        let left : length s.writes ≡ suc (length rest) = ap length oldest in ground (arith, left)

    on_half_close_check-Inv :
        (now : ℕ) → last ≤ now → Inv (on_half_close_check tuning half_close_grace_sec s now) last
    unfolding on_half_close_check
    on_half_close_check-Inv now later = ground arith

  -- Before the loops start; a FIN may have come already.
  pub record Fresh (s : Forward) : Type 0 where
    pub idle : (s.reads_app ≡ 0) × (s.reads_kcp ≡ 0) × (s.writes ≡ [])
    pub sending : (s.parked ≡ false) × (s.app_eof ≡ false)

  abbrev pub started : Forward → ℕ → Forward
  started s backlog =
      forward_kcp_to_client (forward_client_to_kcp tuning half_close_grace_sec s backlog) true

  started-Inv : (s : Forward) (backlog last : ℕ) → Fresh s → Inv (started s backlog) last
  unfolding forward_kcp_to_client forward_client_to_kcp
  started-Inv s backlog last f =
      let none_left : length s.writes ≡ 0 = ap length f.idle.2 in ground (arith, none_left)

  -- One completion on the strand of the session, with that time before and after it; of the session
  -- itself, that it latches a FIN and that it is closed. The clock does not run backwards.
  pub data Step : Forward → ℕ → Forward → ℕ → Type 0 where
    app_read :
        (s : Forward) (last : ℕ) (got : AppRead) (now backlog : ℕ)
        → 1 ≤ s.reads_app
        → last ≤ now
        → Step s last
            (on_app_read tuning half_close_grace_sec s got now backlog)
            (heard_app got now last)
    resumed :
        (s : Forward) (last : ℕ) (gone : Bool) (backlog : ℕ)
        → s.parked ≡ true
        → Step s last (on_resume tuning half_close_grace_sec s gone backlog) last
    kcp_read :
        (s : Forward) (last : ℕ) (got : Completion) (now : ℕ)
        → 1 ≤ s.reads_kcp
        → last ≤ now
        → Step s last (on_kcp_read s got now) (heard_kcp got now last)
    app_written :
        (s : Forward) (last : ℕ) (b : List ℕ) (rest : List (List ℕ)) (failed : Bool)
        → s.writes ≡ b ∷ rest
        → Step s last (on_app_written s rest failed) last
    grace_ends :
        (s : Forward) (last due now : ℕ)
        → s.grace ≡ some due
        → due ≤ now
        → last ≤ now
        → Step s last (on_half_close_check tuning half_close_grace_sec s now) last
    fin_latched :
        (s : Forward) (last : ℕ) → Step s last (record s { peer_fin_received = true }) last
    session_closed : (s : Forward) (last : ℕ) → Step s last (record s { connected = false }) last

  pub data Reach : Forward → ℕ → Type 0 where
    start : (s : Forward) (backlog last : ℕ) → Fresh s → Reach (started s backlog) last
    next :
        (s : Forward) (last : ℕ) (t : Forward) (last' : ℕ)
        → Reach s last
        → Step s last t last'
        → Reach t last'

  Step-Inv :
      (s : Forward) (last : ℕ) (t : Forward) (last' : ℕ)
      → Step s last t last'
      → Inv s last
      → Inv t last'
  Step-Inv _ _ _ _ (app_read s last got now backlog waited later) i =
      on_app_read-Inv s last i got now backlog waited later
  Step-Inv _ _ _ _ (resumed s last gone backlog parked) i =
      on_resume-Inv s last i gone backlog parked
  Step-Inv _ _ _ _ (kcp_read s last got now waited later) i =
      on_kcp_read-Inv s last i got now waited later
  Step-Inv _ _ _ _ (app_written s last b rest failed oldest) i =
      on_app_written-Inv s last i b rest failed oldest
  Step-Inv _ _ _ _ (grace_ends s last due now armed passed later) i =
      on_half_close_check-Inv s last i now later
  Step-Inv _ _ _ _ (fin_latched s last) i = ground (arith, i.reclaimed, i.tracked)
  Step-Inv _ _ _ _ (session_closed s last) i = ground (arith, i.reclaimed, i.tracked)

  Reach-Inv : (s : Forward) (last : ℕ) → Reach s last → Inv s last
  Reach-Inv _ _ (start s backlog last f) = started-Inv s backlog last f
  Reach-Inv _ _ (next s last t last' reached step) =
      Step-Inv s last t last' step (Reach-Inv s last reached)

  -- Whatever the order of the completions, each direction of a tunnel has at most one read or write
  -- outstanding, where a parked loop counts as one; and while the application has closed its side
  -- and the session lives, the server has not closed its own.
  pub Reach-one_transfer :
      (s : Forward) (last : ℕ)
      → Reach s last
      → (s.reads_app + (if s.parked then 1 else 0) ≤ 1)
        × (s.reads_kcp + length s.writes ≤ 1)
        × ((s.app_eof ≡ false) ⊎ (s.connected ≡ false) ⊎ (s.peer_fin ≡ false))
  Reach-one_transfer s last reached =
      let i = Reach-Inv s last reached in (i.upward, i.downward, ground (arith, i.finished))

  -- While the application has closed its side and the session lives, the deadline of the guard is
  -- armed, for no later than the grace after the application closed its side or the last payload of
  -- the target came, whichever was later. Where it finds that time passed it closes both ends, and
  -- before that, however long ago the application closed, it closes nothing and is armed again for
  -- exactly that time.
  pub Reach-reclaims :
      (s : Forward) (last now : ℕ)
      → Reach s last
      → s.app_eof ≡ true
      → s.connected ≡ true
      → last ≤ now
      → let until = last + grace in
        (due_by s.grace last ≡ true)
        × (on_half_close_check tuning half_close_grace_sec s now ≡ (
            if leb until now
            then close_both (record s { grace = none })
            else record s { grace = some until }))
  unfolding on_half_close_check
  Reach-reclaims s last now reached ended lives later =
      let i = Reach-Inv s last reached in
      let same : s.last_progress_us ≡ last = ground (arith, i.tracked, ended) in
      (ground (arith, i.reclaimed, ended, lives, same), ground (arith, ended, lives, later, same))
