-- ===== src/Agent/Consolidation/Tiling.antt =====
-- agent/looping/consolidation.py: the windows that successive consolidations archive.
use minicode_agent_runtime.Prelude.{
  ℕ, false, ◌≤◌, ◌-◌, max, List, [], ◌∷◌, ◌++◌, some, ◌≡◌, refl, arith, length, take, drop, zero,
  suc, ap, ◌∙◌, sym, ◌/◌, length-append,
}
use minicode_agent_runtime.Session.{Session, SessionMessage}
use minicode_agent_runtime.Agent.Consolidation.{
  ConsolidationWindow, select_consolidation_window, slice,
}
use minicode_agent_runtime.Agent.Consolidation.Service.{consolidate}
use minicode_agent_runtime.Agent.Consolidation.Ports.{
  Ports, Work, Ended, no_window, unanswered, failed, done,
}
use minicode_agent_runtime.Agent.Consolidation.Service.Mark.{consolidate-Marks}
use minicode_agent_runtime.Agent.Consolidation.Service.Mark.{Marks}

-- What happens to a session: messages at its end, or a consolidation, with what models, parsers and
-- stores do then
pub data Event (Any Vectors : Type 0) : Type 0 where
  post : List (SessionMessage Any) → Event Any Vectors
  attempt : Ports Any Vectors → Work Vectors → Event Any Vectors

-- A session, and the messages of the windows that were archived, one window after the other
pub record Progress (Any : Type 0) : Type 0 where
  pub session : Session Any
  pub archived : List (SessionMessage Any)

module _ {Any Vectors : Type 0} where
  abbrev pub add_window :
      List (SessionMessage Any) → Ended Any × Session Any × Work Vectors → Progress Any
  add_window archived (no_window, session, work) = record { session = session; archived = archived }
  add_window archived (unanswered, session, work) = record {
    session = session;
    archived = archived;
  }
  add_window archived (failed, session, work) = record { session = session; archived = archived }
  add_window archived (done window, session, work) = record {
    session = session;
    archived = archived ++ window.old_messages;
  }

  unfoldable pub happen : (keep_count : ℕ) → Event Any Vectors → Progress Any → Progress Any
  unfolding consolidate
  happen keep_count (post messages) p = record p {
    session = record p.session { messages = p.session.messages ++ messages };
  }
  happen keep_count (attempt io work) p =
      add_window p.archived (consolidate io keep_count false p.session work)

  unfoldable pub happen_all :
      (keep_count : ℕ) → List (Event Any Vectors) → Progress Any → Progress Any
  unfolding happen
  happen_all keep_count [] p = p
  happen_all keep_count (e ∷ es) p = happen_all keep_count es (happen keep_count e p)

module _ {Any : Type 0} where
  -- The archived messages are those up to the mark, and the mark stays off the newest.
  pub record IsTiled (keep_count : ℕ) (p : Progress Any) : Type 0 where
    pub tiled : p.archived ≡ take p.session.last_consolidated p.session.messages
    pub below : p.session.last_consolidated ≤ length p.session.messages - keep_count

take-append_le :
    {A : Type 0} (n : ℕ) (xs ys : List A) → n ≤ length xs → take n (xs ++ ys) ≡ take n xs
take-append_le zero xs ys h = refl
take-append_le (suc n) [] ys h = absurd (omega arith)
take-append_le (suc n) (x ∷ xs) ys h = ap (◌∷◌ x) (take-append_le n xs ys (omega arith))

take-append-slice :
    {A : Type 0} (n m : ℕ) (xs : List A) → n ≤ m → take n xs ++ drop n (take m xs) ≡ take m xs
take-append-slice zero m xs h = refl
take-append-slice (suc n) zero xs h = absurd (omega arith)
take-append-slice (suc n) (suc m) [] h = refl
take-append-slice (suc n) (suc m) (x ∷ xs) h = ap (◌∷◌ x) (take-append-slice n m xs (omega arith))

-- What the window of a consolidation is
pub select_window :
    {Any : Type 0} (keep_count min_new : ℕ) (session : Session Any) (w : ConsolidationWindow Any)
    → select_consolidation_window keep_count min_new false session ≡ some w
    → let up_to = length session.messages - keep_count in
      (w.consolidate_up_to ≡ up_to)
      × (w.old_messages ≡ slice session.last_consolidated up_to session.messages)
      × (max 1 min_new ≤ length w.old_messages)
unfolding select_consolidation_window
select_window keep_count min_new session w h = ground arith

module _ {Any : Type 0} (keep_count : ℕ) where
  post-IsTiled :
      (messages : List (SessionMessage Any)) (p : Progress Any)
      → IsTiled keep_count p
      → IsTiled keep_count
          (record p { session = record p.session { messages = p.session.messages ++ messages } })
  post-IsTiled messages p t = record {
    tiled =
        t.tiled
        ∙ sym (
            take-append_le p.session.last_consolidated p.session.messages messages
              (omega (arith, t.below)));
    below = omega (arith, t.below, length-append p.session.messages messages);
  }

module _ {Any Vectors : Type 0} (keep_count : ℕ) where
  marked-IsTiled :
      (archived : List (SessionMessage Any)) (session : Session Any)
      (out : Ended Any × Session Any × Work Vectors)
      → IsTiled keep_count (record { session = session; archived = archived })
      → Marks false session
          (select_consolidation_window keep_count (max 5 (keep_count / 2)) false session)
          out
      → IsTiled keep_count (add_window archived out)
  marked-IsTiled archived session (no_window, s, work) t m = rw (m.1) t
  marked-IsTiled archived session (unanswered, s, work) t m = rw m t
  marked-IsTiled archived session (failed, s, work) t m = rw m t
  marked-IsTiled archived session (done window, s, work) t m =
      let w = select_window keep_count (max 5 (keep_count / 2)) session window m.0 in
      rw (m.1) (record {
        tiled =
            rw (t.tiled, w.1, w.0)
              (take-append-slice session.last_consolidated (length session.messages - keep_count)
                session.messages t.below);
        below = omega (arith, w.0);
      })

  happen-IsTiled :
      (e : Event Any Vectors) (p : Progress Any)
      → IsTiled keep_count p
      → IsTiled keep_count (happen keep_count e p)
  unfolding happen
  happen-IsTiled (post messages) p t = post-IsTiled keep_count messages p t
  happen-IsTiled (attempt io work) p t =
      marked-IsTiled p.archived p.session (consolidate io keep_count false p.session work) t
        (consolidate-Marks io keep_count false p.session work)

  -- Through any sequence of new messages and regular consolidations, each with models and stores
  -- that may answer or fail in any way, of a session whose mark is consistent, the windows of the
  -- consolidations that ended are together exactly the messages before the mark, in order and each
  -- once, and the mark stays off the newest keep_count messages.
  pub happen_all-IsTiled :
      (es : List (Event Any Vectors)) (p : Progress Any)
      → IsTiled keep_count p
      → IsTiled keep_count (happen_all keep_count es p)
  unfolding happen_all
  happen_all-IsTiled [] p t = t
  happen_all-IsTiled (e ∷ es) p t =
      happen_all-IsTiled es (happen keep_count e p) (happen-IsTiled e p t)
