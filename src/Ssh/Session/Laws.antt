-- ===== src/Ssh/Session/Laws.antt =====
-- What `Run` returns, and what a second `Close` does.
use goros.Common.{
  Text, text, ℕ, false, [], Option, none, some, is_empty, trim_space, ◌≡◌, refl, ◌∙◌, ap, sym,
  subst, ◌↔◌, ◌⊎◌, inl, inr, Bool-cases,
}
use goros.Roserr.{GoError, deadline_exceeded}
use goros.Roserr.Chain.{as_ros}
use goros.Roserr.Render.{Formats}
use goros.Ssh.Output.{clean_console_output}
use goros.Ssh.Output.Clean.{IsClean, empty-IsClean, clean_console_output-IsClean}
use goros.Ssh.Errors.{map_ssh_error-as_ros, InTaxonomy}
use goros.Ssh.Dial.{SshClient}
use goros.Ssh.Session.{
  exited, failed, Waited, ctx_done, output, Call, Ran, cleaned, select, in_session, unless_done,
  run_open, close_on, close,
}

-- A failed run: a clean text with an error that the context gave, or that is in the taxonomy.
pub data Failure (FromContext : GoError → Type 0) : Ran → Type 0 where
  context_error : (e : GoError) → FromContext e → Failure FromContext ([], some e)
  taxonomy_error :
      (out : Text) (e : GoError) → IsClean out → InTaxonomy e → Failure FromContext (out, some e)

has_error :
    (FromContext : GoError → Type 0) (r : Ran)
    → Failure FromContext r
    → (e : GoError) × (r.1 ≡ some e)
has_error FromContext r (context_error e h) = (e, refl)
has_error FromContext r (taxonomy_error out e c h) = (e, refl)

-- A command that ended with a text: without an error, or with an exit status and a text that is not
-- blank.
abbrev pub Answered : Waited → Text → Type 0
Answered w out =
    (raw : Text) × (out ≡ clean_console_output raw)
    × ((w ≡ output raw none)
        ⊎ ((e : GoError) × (w ≡ output raw (some (exited e)))
            × (is_empty (trim_space out) ≡ false)))

abbrev pub Ends : (GoError → Type 0) → Waited → Ran → Type 0
Ends FromContext w ran =
    ((out : Text) × (ran ≡ (out, none)) × Answered w out) ⊎ Failure FromContext ran

module _ (f : Formats) (host : Text) (port : ℕ) (FromContext : GoError → Type 0) where
  exited-Ends :
      (raw : Text) (e : GoError)
      → Ends FromContext
          (output raw (some (exited e)))
          (cleaned f host port (clean_console_output raw) (some (exited e)))
  unfolding as_ros
  exited-Ends raw e = elim (Bool-cases (is_empty (trim_space (clean_console_output raw)))) [
    | inl p ↦ rw p (inr (Failure.taxonomy_error [] _ empty-IsClean (_, refl)))
    | inr p ↦ rw p (inl (clean_console_output raw, refl, (raw, refl, inr (e, refl, p))))
  ]

  ctx_error-Ends :
      (e : GoError) → FromContext e → Failure FromContext (select f host port (ctx_done e))
  unfolding as_ros
  ctx_error-Ends deadline_exceeded h = Failure.taxonomy_error [] _ empty-IsClean (_, refl)
  ctx_error-Ends e h = Failure.context_error e h

  select-Ends :
      (w : Waited)
      → ((e : GoError) → w ≡ ctx_done e → FromContext e)
      → Ends FromContext w (select f host port w)
  select-Ends (ctx_done e) h = inr (ctx_error-Ends e (h e refl))
  select-Ends (output raw none) h = inl (clean_console_output raw, refl, (raw, refl, inl refl))
  select-Ends (output raw (some (exited e))) h = exited-Ends raw e
  select-Ends (output raw (some (failed e))) h = inr (
      Failure.taxonomy_error (clean_console_output raw) _ (clean_console_output-IsClean raw)
        (map_ssh_error-as_ros f e host port (text "run")))

module _ {Conn : Type 0} (w : Call Conn) (c : SshClient Conn) (line : Text) (conn : Conn) where
  -- The error is what the context had at the start, or when it was done.
  abbrev pub FromContext : GoError → Type 0
  FromContext e = (w.ctx ≡ some e) ⊎ (w.waited conn line ≡ ctx_done e)

  in_session-Ends :
      (s : Option GoError)
      → ((s ≡ none) × Ends FromContext (w.waited conn line) (in_session w c line conn s))
        ⊎ Failure FromContext (in_session w c line conn s)
  in_session-Ends none =
      inl
        (refl, select-Ends w.formats c.host c.port FromContext (w.waited conn line) (λ e p. inr p))
  in_session-Ends (some e) = inr (
      Failure.taxonomy_error [] _ empty-IsClean
        (map_ssh_error-as_ros w.formats e c.host c.port (text "open-session")))

  -- What it takes for a run to give a text without an error.
  abbrev pub Succeeds : Text → Type 0
  Succeeds out = (w.ctx ≡ none) × (w.new_session conn ≡ none) × Answered (w.waited conn line) out

  ends_in_session :
      w.ctx ≡ none
      → ((out : Text) × (in_session w c line conn (w.new_session conn) ≡ (out, none))
          × Succeeds out)
        ⊎ Failure FromContext (in_session w c line conn (w.new_session conn))
  ends_in_session p = elim (in_session-Ends (w.new_session conn)) [
    | inl (q, inl (out, r, a)) ↦ inl (out, r, (p, q, a))
    | inl (q, inr bad) ↦ inr bad
    | inr bad ↦ inr bad
  ]

  unless_done-Ends :
      (ctx : Option GoError)
      → w.ctx ≡ ctx
      → ((out : Text) × (unless_done w c line conn ctx ≡ (out, none)) × Succeeds out)
        ⊎ Failure FromContext (unless_done w c line conn ctx)
  unless_done-Ends none p = ends_in_session p
  unless_done-Ends (some e) p = inr (Failure.context_error e (inl p))

  ends :
      ((out : Text) × (run_open w c line conn ≡ (out, none)) × Succeeds out)
      ⊎ Failure FromContext (run_open w c line conn)
  unfolding run_open
  ends = unless_done-Ends w.ctx refl

  ended_well : (out : Text) → run_open w c line conn ≡ (out, none) → Succeeds out
  ended_well out e = elim ends [
    | inl (out', r, s) ↦ subst Succeeds (ap (λ x. x.0) (sym r ∙ e)) s
    | inr bad ↦
        let (x, fails) = has_error FromContext (run_open w c line conn) bad in
        absurd (cc (fails, ap (λ x. x.1) e))
  ]

  select_well :
      (out : Text)
      → Answered (w.waited conn line) out
      → select w.formats c.host c.port (w.waited conn line) ≡ (out, none)
  select_well out (raw, o, inl p) = rw p (ap (λ (o : Text). (o, none)) (sym o))
  select_well out (raw, o, inr (e, p, ink)) =
      rw (p, rw o at ink) (ap (λ (o : Text). (o, none)) (sym o))

  ends_well : (out : Text) → Succeeds out → run_open w c line conn ≡ (out, none)
  unfolding run_open
  ends_well out (p, q, a) = rw (p, q) (select_well out a)

  -- `Run` on an open client gives a text without an error exactly where the context is not done, a session
  -- opens, and the command ends with no error, or with an exit status and a cleaned output that is not
  -- blank; the text is the cleaned output. Everything else is an error, of the context or in the
  -- taxonomy, with a clean text.
  pub run_open-Ends :
      ((out : Text) → (run_open w c line conn ≡ (out, none)) ↔ Succeeds out)
      × (((out : Text) × (run_open w c line conn ≡ (out, none)) × Succeeds out)
          ⊎ Failure FromContext (run_open w c line conn))
  run_open-Ends = (λ out. (ended_well out, ends_well out), ends)

module _ {Conn : Type 0} (close_conn : Conn → Conn × Option GoError) where
  close_on_open :
      (c : SshClient Conn) (o : Option Conn) (conn : Conn)
      → o ≡ some conn
      → close_on close_conn c o
        ≡ (record c { conn = some (close_conn conn).0 }, (close_conn conn).1)
  close_on_open c o conn e = rw e refl

  close_open :
      (c : SshClient Conn) (conn : Conn)
      → c.conn ≡ some conn
      → close close_conn c ≡ (record c { conn = some (close_conn conn).0 }, (close_conn conn).1)
  unfolding close
  close_open c conn e = close_on_open c c.conn conn e

  -- `Close` keeps the connection, and gives what the connection's own `Close` gives: a second call
  -- closes the connection again, and gives what that gives.
  pub close_again :
      (c : SshClient Conn) (conn : Conn)
      → c.conn ≡ some conn
      → (close close_conn (close close_conn c).0).1 ≡ (close_conn (close_conn conn).0).1
  close_again c conn e =
      ap (λ r. (close close_conn r.0).1) (close_open c conn e)
      ∙ ap (λ r. r.1)
          (close_open (record c { conn = some (close_conn conn).0 }) (close_conn conn).0 refl)
