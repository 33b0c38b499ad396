-- ===== src/Postpivot/Sshd/Session/Command.antt =====
-- What a session runs, in which environment, and how each request is replied to.
use xmorph.Base.{
  Bool, true, false, none, some, List, [], ◌∷◌, ◌++◌, if◌then◌else◌, map, All, ◌≡◌, refl, ap, sym,
  ◌∙◌, Bool-cases, inl, inr,
}
use xmorph.Base.Bytes.{Bytes}
use xmorph.Postpivot.Sshd.Session.{
  Winsize, Request, Decoders, Session, new_session, resized, handle_win_ch, Ended, exit_status,
  SessionEnd, with_term, did_start, run_session, replied, handle_session,
}
use xmorph.Postpivot.Sshd.Session.Requests.{
  last_some, is_some, terminal_of, command_of, is_agreed, settled, on_request-settled,
  on_request-launch, settled_none, settled_cons,
}

module _ (d : Decoders) (ends : List Bytes → Ended) where
  reply_all : List Request → SessionEnd → SessionEnd
  reply_all [] o = o
  reply_all (req ∷ reqs) o = replied d ends (is_agreed d req) (reply_all reqs o)

  handle_session-settled :
      (before : List Request) (req : Request) (after : List Request) (argv : List Bytes)
      (s : Session)
      → All (λ r. command_of d r ≡ none) before
      → command_of d req ≡ some argv
      → handle_session d ends (before ++ req ∷ after) s
        ≡ reply_all before
            (replied d ends true (run_session d ends argv (settled d before s) after))
  unfolding handle_session reply_all
  handle_session-settled [] req after argv s quiet found =
      rw (handle_session, on_request-launch d req s argv found)
        (ap (λ t. replied d ends true (run_session d ends argv t after)) (sym (settled_none d s)))
  handle_session-settled (r ∷ before) req after argv s (q, quiet) found =
      rw (handle_session, on_request-settled d r s q)
        (ap (λ o. replied d ends (is_agreed d r) o)
          (handle_session-settled before req after argv (settled d (r ∷ []) s) quiet found
            ∙ ap (λ t. reply_all before (replied d ends true (run_session d ends argv t after)))
                (settled_cons d r before s)))

  -- The size that the terminal has at the end of the requests.
  abbrev pub last_size : Bool → List Request → Winsize → Winsize
  last_size on_terminal [] ws = ws
  last_size on_terminal (req ∷ reqs) ws = last_size on_terminal reqs (resized d on_terminal req ws)

  handle_win_ch_lem :
      (on_terminal : Bool) (reqs : List Request) (ws : Winsize)
      → handle_win_ch d on_terminal reqs ws ≡ (map (λ r. false) reqs, last_size on_terminal reqs ws)
  unfolding handle_win_ch
  handle_win_ch_lem on_terminal [] ws = refl
  handle_win_ch_lem on_terminal (req ∷ reqs) ws =
      rw (handle_win_ch_lem on_terminal reqs (resized d on_terminal req ws)) refl

  reply_all_lem :
      (reqs : List Request) (o : SessionEnd)
      → reply_all reqs o ≡ record o { replies = map (is_agreed d) reqs ++ o.replies }
  unfolding reply_all
  reply_all_lem [] o = refl
  reply_all_lem (req ∷ reqs) o = rw (reply_all_lem reqs o) refl

  run_session-requests :
      (argv : List Bytes) (s : Session) (after : List Request)
      → ((run_session d ends argv s after).replies
          ≡ (if did_start d ends (ends argv) then map (λ r. false) after else []))
        × ((run_session d ends argv s after).size
            ≡ (if did_start d ends (ends argv) then last_size s.want_pty after s.ws else s.ws))
  unfolding run_session
  run_session-requests argv s after = elim (Bool-cases (did_start d ends (ends argv))) [
    | inl e ↦ rw (e, handle_win_ch_lem s.want_pty after s.ws) (refl, refl)
    | inr e ↦ rw e (refl, refl)
  ]

  -- A session whose requests up to one ask for no command, and where that one does, runs its command:
  -- with the variables of the readable env requests before it, in their order, and the TERM of the
  -- last readable pty-req, on a terminal exactly if there was one. Each request before is replied to
  -- once, the command's one with true, and those after it with false, or not at all if the command
  -- does not start. The terminal has the size of the last readable pty-req, and then that of each
  -- readable window-change while the command runs, kept to 16 bits. The status that is sent is 127 in that case, 1 if Wait fails, and otherwise the
  -- low 32 bits of the exit code.
  pub handle_session-command :
      (before : List Request) (req : Request) (after : List Request) (argv : List Bytes)
      → All (λ r. command_of d r ≡ none) before
      → command_of d req ≡ some argv
      → let o = handle_session d ends (before ++ req ∷ after) new_session in
        let at_start = settled d before new_session in
        (o.argv ≡ some argv)
        × (o.environ ≡ with_term at_start)
        × (o.on_terminal ≡ is_some (last_some (terminal_of d) before))
        × (o.replies
            ≡ map (is_agreed d) before
              ++ true ∷ (if did_start d ends (ends argv) then map (λ r. false) after else []))
        × (o.status ≡ some (exit_status (ends argv)))
        × (o.size ≡ (
            if did_start d ends (ends argv)
            then last_size at_start.want_pty after at_start.ws
            else at_start.ws))
  unfolding run_session
  handle_session-command before req after argv quiet found =
      let start = settled d before new_session in
      let during = run_session-requests argv start after in
      let e =
        handle_session-settled before req after argv new_session quiet found
        ∙ reply_all_lem before (replied d ends true (run_session d ends argv start after)) in
      (
        ap (λ o. o.argv) e,
        ap (λ o. o.environ) e,
        ap (λ o. o.on_terminal) e,
        ap (λ o. o.replies) e ∙ ap (λ rs. map (is_agreed d) before ++ true ∷ rs) during.0,
        ap (λ o. o.status) e,
        ap (λ o. o.size) e ∙ during.1,
      )
