-- ===== src/Workshop/Queue/Kick.antt =====
-- A client that never takes an offer is kicked after the allowed attempts.
use voltmod.Workshop.Queue.Sessions.{client_at-put_client, missing_for_at, missing_for-put_client}
use voltmod.Workshop.Queue.{
  Seconds, DownloadQueue, Client, missing_for, client_at, put_client, with_attempt, offer,
  next_to_send, send, kick,
}
use voltmod.Common.{
  ℕ, zero, suc, ◌≡◌, refl, sym, ◌∙◌, ◌≢◌, ◌⊎◌, inl, inr, true, false, List, ◌∷◌, arith, ltb,
  if◌then◌else◌, Bool-cases, length, ℤ,
}

module _ {D : Type 0} (sec : Seconds D) (k : ℤ) (now : D) (max_attempts : ℕ) where
  -- The queue after a number of offers with no reconnect between them.
  pub offers : ℕ → DownloadQueue D → DownloadQueue D
  offers zero q = q
  offers (suc n) q = (next_to_send sec (offers n q) k now max_attempts).0

  -- What the record of the client tells after `n` offers of `next`, none of them taken.
  abbrev Offered : ℕ → ℕ → Client D → Type 0
  Offered next zero c = c.sending ≢ next
  Offered next (suc n) c =
      ((c.sending ≡ next) × (c.attempts ≡ suc n)) ⊎ ((c.sending ≢ next) × (max_attempts ≡ 0))

  record Waits (next : ℕ) (others : List ℕ) (n : ℕ) (q : DownloadQueue D) : Type 0 where
    missing : missing_for q k ≡ next ∷ others
    record_of : Offered next n (client_at sec q k)

  attempt-Offered :
      (next n : ℕ) (c : Client D)
      → Offered next n c
      → ((with_attempt sec c next).attempts ≡ suc n)
        ⊎ (((with_attempt sec c next).attempts ≡ 1) × (max_attempts ≡ 0))
  attempt-Offered next zero c h = ground arith
  attempt-Offered next (suc n) c h = ground arith

  put_client-Waits :
      (next : ℕ) (others : List ℕ) (n : ℕ) (q : DownloadQueue D) (c : Client D)
      → missing_for q k ≡ next ∷ others
      → c.downloaded ≡ (client_at sec q k).downloaded
      → Offered next n c
      → Waits next others n (put_client sec q k c)
  put_client-Waits next others n q c m d o = record {
    missing = missing_for-put_client sec k q c ∙ rw d (sym (missing_for_at sec k q)) ∙ m;
    record_of = rw (client_at-put_client sec k q c) o;
  }

  kicked-Offered :
      (next n : ℕ) (c : Client D)
      → Offered next n c
      → ltb max_attempts (with_attempt sec c next).attempts ≡ true
      → Offered next (suc n) (with_attempt sec c next)
  kicked-Offered next zero c h e = ground arith
  kicked-Offered next (suc n) c h e = ground arith

  sent-Offered :
      (next n : ℕ) (c : Client D)
      → Offered next n c
      → ltb max_attempts (with_attempt sec c next).attempts ≡ false
      → Offered next (suc n) (record (with_attempt sec c next) { sending = next; sent_at = now })
  sent-Offered next n c h e = ground (arith, attempt-Offered next n c h)

  offer-Waits :
      (next : ℕ) (others : List ℕ) (n : ℕ) (q : DownloadQueue D)
      → Waits next others n q
      → Waits next others (suc n) (next_to_send sec q k now max_attempts).0
  unfolding next_to_send offer
  offer-Waits next others n q h =
      let c = with_attempt sec (client_at sec q k) next in
      rw (h.missing, next_to_send)
        (elim (Bool-cases (ltb max_attempts c.attempts)) [
          | inl e ↦
              rw (e, offer)
                (put_client-Waits next others (suc n) q c h.missing refl
                  (kicked-Offered next n (client_at sec q k) h.record_of e))
          | inr e ↦
              rw (e, offer)
                (put_client-Waits next others (suc n) q (record c { sending = next; sent_at = now })
                  h.missing refl (sent-Offered next n (client_at sec q k) h.record_of e))
        ])

  offers-Waits :
      (next : ℕ) (others : List ℕ) (n : ℕ) (q : DownloadQueue D)
      → Waits next others 0 q
      → Waits next others n (offers n q)
  unfolding offers
  offers-Waits next others zero q h = h
  offers-Waits next others (suc n) q h =
      offer-Waits next others n (offers n q) (offers-Waits next others n q h)

  -- Offered the same addon again and again and never reconnecting, a client is sent the addon by the
  -- first `max_attempts` messages and kicked by each one after them.
  pub next_to_send-offers :
      (next : ℕ) (others : List ℕ) (n : ℕ) (q : DownloadQueue D)
      → missing_for q k ≡ next ∷ others
      → (client_at sec q k).sending ≢ next
      → (next_to_send sec (offers n q) k now max_attempts).1 ≡ (
          if ltb n max_attempts
          then record { action = send; id = next; remaining = length others }
          else record { action = kick; id = next; remaining = 0 })
  unfolding next_to_send offer
  next_to_send-offers next others n q m s =
      let w = offers-Waits next others n q (record { missing = m; record_of = s }) in
      rw (w.missing, next_to_send)
        (ground (arith, attempt-Offered next n (client_at sec (offers n q) k) w.record_of))
