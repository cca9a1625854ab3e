-- ===== src/Negotiation/Writes.antt =====
-- What `counter` and `resolve` of internal/negotiation/http.go write to the session store.
use agent_mart.Prelude.{◌≡◌, ◌⊎◌, inl, inr, refl}
use agent_mart.Prelude.Text.{Text}
use agent_mart.Prelude.Result.{ok, err, pure, ◌>>◌}
use agent_mart.Prelude.Ensures.{
  Outcome, Outcome-of, Ensures, Ensures-bind, Ensures-refuse_if, Ensures-lift, Ensures-pure,
}
use agent_mart.Negotiation.Session.{Session}
use agent_mart.Negotiation.Server.{Request, Server, SessionStore}
use agent_mart.Negotiation.Handlers.{Reply, reply_of, counter, resolve}

module _ {S : Type 0} (store : SessionStore S) (id : Text) (read : S) where
  -- The session of the reply was written to the store as it was read, and taken.
  abbrev pub Written : Reply → S → Type 0
  Written reply t =
      (kept : Session) × (reply ≡ reply_of id kept)
      × ((store.put id kept read).0 ≡ ok tt)
      × (t ≡ (store.put id kept read).1)

  -- Nothing was written, or the store refused the only write.
  abbrev pub Unwritten : Text → S → Type 0
  Unwritten e t =
      (t ≡ read)
      ⊎ (kept : Session) × ((store.put id kept read).0 ≡ err e) × (t ≡ (store.put id kept read).1)

  put_ensures :
      (kept : Session)
      → Ensures
          (λ t. t ≡ read)
          (store.put id kept)
          (λ _ t. ((store.put id kept read).0 ≡ ok tt) × (t ≡ (store.put id kept read).1))
          Unwritten
  put_ensures kept = record {
    at = λ t p. rw p (
        Outcome-of (λ _ t. ((store.put id kept read).0 ≡ ok tt) × (t ≡ (store.put id kept read).1))
          Unwritten (store.put id kept read).0 (store.put id kept read).1 (λ a h. (h, refl))
          (λ e h. inr (kept, h, refl)));
  }

  reply_ensures :
      (kept : Session)
      → Ensures (λ t. t ≡ read) (store.put id kept >> pure (reply_of id kept)) Written Unwritten
  reply_ensures kept =
      Ensures-bind (λ _ t. ((store.put id kept read).0 ≡ ok tt) × (t ≡ (store.put id kept read).1))
        _ _ (put_ensures kept) (λ _. Ensures-pure _ (λ t p. (kept, refl, p.0, p.1)))

  get_ensures :
      (start : S)
      → (store.get id start).1 ≡ read
      → Ensures (λ t. t ≡ start) (store.get id) (λ _ t. t ≡ read) Unwritten
  get_ensures start h = record {
    at = λ t p. rw p (
        Outcome-of (λ _ t. t ≡ read) Unwritten (store.get id start).0 (store.get id start).1
          (λ a k. h) (λ e k. inl h));
  }

module _ {S : Type 0} (s : Server) (store : SessionStore S) (r : Request) (start : S) where
  counter_ensures :
      Ensures
        (λ t. t ≡ start)
        (counter s store r)
        (Written store r.session_id (store.get r.session_id start).1)
        (Unwritten store r.session_id (store.get r.session_id start).1)
  unfolding counter
  counter_ensures =
      let read = (store.get r.session_id start).1 in
      Ensures-bind (λ _ t. t ≡ read) _ _ (get_ensures store r.session_id read start refl)
        (λ found.
          Ensures-bind (λ _ t. t ≡ read) _ _ (Ensures-lift _ (λ e t p. inl p))
            (λ session.
              Ensures-bind (λ _ t. t ≡ read) _ _ (Ensures-refuse_if _ _ (λ t p. inl p))
                (λ _.
                  Ensures-bind (λ _ t. t ≡ read) _ _ (Ensures-refuse_if _ _ (λ t p. inl p))
                    (λ _.
                      Ensures-bind (λ _ t. t ≡ read) _ _ (Ensures-lift _ (λ e t p. inl p))
                        (λ priced.
                          Ensures-bind (λ _ t. t ≡ read) _ _ (Ensures-lift _ (λ e t p. inl p))
                            (λ cost.
                              Ensures-bind (λ _ t. t ≡ read) _ _ (Ensures-lift _ (λ e t p. inl p))
                                (λ kept. reply_ensures store r.session_id read kept)))))))

  resolve_ensures :
      Ensures
        (λ t. t ≡ start)
        (resolve s store r)
        (Written store r.session_id (store.get r.session_id start).1)
        (Unwritten store r.session_id (store.get r.session_id start).1)
  unfolding resolve
  resolve_ensures =
      let read = (store.get r.session_id start).1 in
      Ensures-bind (λ _ t. t ≡ read) _ _ (get_ensures store r.session_id read start refl)
        (λ found.
          Ensures-bind (λ _ t. t ≡ read) _ _ (Ensures-lift _ (λ e t p. inl p))
            (λ session.
              Ensures-bind (λ _ t. t ≡ read) _ _ (Ensures-lift _ (λ e t p. inl p))
                (λ kept. reply_ensures store r.session_id read kept)))

  -- A counter, an acceptance or a decline writes the store at most once. A reply is that of the
  -- session which the store took; an error is the refusal of that write, or leaves the store as
  -- the reading of the session left it.
  pub handlers_write_once :
      Outcome
        (Written store r.session_id (store.get r.session_id start).1)
        (Unwritten store r.session_id (store.get r.session_id start).1)
        (counter s store r start).0
        (counter s store r start).1
      × Outcome
          (Written store r.session_id (store.get r.session_id start).1)
          (Unwritten store r.session_id (store.get r.session_id start).1)
          (resolve s store r start).0
          (resolve s store r start).1
  handlers_write_once = (counter_ensures.at start refl, resolve_ensures.at start refl)
