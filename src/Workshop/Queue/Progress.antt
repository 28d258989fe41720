-- ===== src/Workshop/Queue/Progress.antt =====
-- Rounds of an offer and a reconnect in time.
use mathlib.Core.Path.{subst}
use voltmod.Workshop.Queue.Requirements.{WellFormed}
use voltmod.Workshop.Queue.Sessions.{
  Distinct, keep-append_one, keep_absent, find_client-put_client, client_at-put_client,
  required_ids-put_client, missing_for_at, missing_for-put_client, missing_for-Distinct,
}
use voltmod.Workshop.Queue.{
  Seconds, DownloadQueue, Client, required_ids, find_client, missing_for, client_at, put_client,
  offer, next_to_send, client_reconnected, reconnected,
}
use voltmod.Common.{
  ℕ, ◌≤◌, ◌≡◌, refl, sym, ap, ◌∙◌, ◌≢◌, inl, inr, true, false, not, List, [], ◌∷◌, ◌++◌, arith,
  ◌==◌, if◌then◌else◌, Option-cases, List-cases, drop_nil, length, drop, keep, All, All-keep_self,
  contains, ℤ,
}

module _ {D : Type 0} (sec : Seconds D) (k : ℤ) (max_attempts : ℕ) (timeout : D) where
  -- An offer at the first time, and the client's reconnect at the second.
  pub round : DownloadQueue D → D × D → DownloadQueue D
  round q (sent, back) =
      client_reconnected sec (next_to_send sec q k sent max_attempts).0 k back timeout

  pub rounds : DownloadQueue D → List (D × D) → DownloadQueue D
  rounds q [] = q
  rounds q (t ∷ ts) = rounds (round q t) ts

  abbrev pub OnTime : D × D → Type 0
  OnTime t = sec.at_most (sec.minus t.1 t.0) timeout ≡ true

  -- The client's record after its reconnect in time.
  reconnected_in_time :
      (c : Client D) (sent back : D) (next : ℕ)
      → next ≢ 0
      → OnTime (sent, back)
      → c.sending ≡ next
      → c.sent_at ≡ sent
      → ((reconnected sec c back timeout).sending ≡ 0)
        × ((reconnected sec c back timeout).downloaded
            ≡ (if contains c.downloaded next then c.downloaded else c.downloaded ++ next ∷ []))
  unfolding reconnected
  reconnected_in_time c sent back next n t e f = ground arith

  offered :
      (q : DownloadQueue D) (sent : D) (next : ℕ) (others : List ℕ)
      → 1 ≤ max_attempts
      → next ≢ 0
      → (client_at sec q k).sending ≡ 0
      → missing_for q k ≡ next ∷ others
      → (next_to_send sec q k sent max_attempts).0
        ≡ put_client sec q k
            (record (client_at sec q k) { attempts = 1; sending = next; sent_at = sent })
  unfolding next_to_send offer
  offered q sent next others m n z e = rw (e, next_to_send) (ground arith)

  reconnected_at :
      (q : DownloadQueue D) (c : Client D) (back : D)
      → client_reconnected sec (put_client sec q k c) k back timeout
        ≡ put_client sec (put_client sec q k c) k (reconnected sec c back timeout)
  unfolding client_reconnected
  reconnected_at q c back = rw (find_client-put_client sec k q c, client_reconnected) refl

  not_downloaded :
      (q : DownloadQueue D) (next : ℕ) (others : List ℕ)
      → missing_for q k ≡ next ∷ others
      → contains (client_at sec q k).downloaded next ≡ false
  not_downloaded q next others e =
      let lacks = λ (id : ℕ). not (contains (client_at sec q k).downloaded id) in
      let kept : All (λ x. lacks x ≡ true) (next ∷ others) =
        subst (All (λ x. lacks x ≡ true)) (sym (missing_for_at sec k q) ∙ e)
          (All-keep_self lacks (required_ids q)) in
      ground (arith, kept.0)

  missing_without_first :
      (q : DownloadQueue D) (next : ℕ) (others : List ℕ)
      → WellFormed q.required
      → missing_for q k ≡ next ∷ others
      → keep (λ x. not (contains ((client_at sec q k).downloaded ++ next ∷ []) x)) (required_ids q)
        ≡ others
  missing_without_first q next others w e =
      let d = (client_at sec q k).downloaded in
      let distinct : Distinct (next ∷ others) = subst Distinct e (missing_for-Distinct sec k q w) in
      keep-append_one d next (required_ids q)
      ∙ ap (keep (λ x. not (next == x))) (sym (missing_for_at sec k q) ∙ e)
      ∙ ground (arith, keep_absent next others distinct.1)

  -- What one round leaves: the first missing id is downloaded, and nothing is sending.
  round_first :
      (q : DownloadQueue D) (t : D × D) (next : ℕ) (others : List ℕ)
      → 1 ≤ max_attempts
      → WellFormed q.required
      → (client_at sec q k).sending ≡ 0
      → OnTime t
      → missing_for q k ≡ next ∷ others
      → (missing_for (round q t) k ≡ others)
        × ((client_at sec (round q t) k).sending ≡ 0)
        × ((round q t).required ≡ q.required)
  unfolding round
  round_first q (sent, back) next others m w z o e =
      let c = record (client_at sec q k) { attempts = 1; sending = next; sent_at = sent } in
      let distinct : Distinct (next ∷ others) = subst Distinct e (missing_for-Distinct sec k q w) in
      let (idle, grown) = reconnected_in_time c sent back next distinct.0 o refl refl in
      let d : (reconnected sec c back timeout).downloaded
          ≡ (client_at sec q k).downloaded ++ next ∷ [] =
        grown ∙ rw (not_downloaded q next others e) refl in
      rw (offered q sent next others m distinct.0 z e, reconnected_at q c back)
        (
          missing_for-put_client sec k (put_client sec q k c) (reconnected sec c back timeout)
              ∙ rw (d, required_ids-put_client sec k q c) (missing_without_first q next others w e),
          rw (client_at-put_client sec k (put_client sec q k c) (reconnected sec c back timeout))
              idle,
          required_ids-put_client sec k (put_client sec q k c) (reconnected sec c back timeout)
              ∙ required_ids-put_client sec k q c,
        )

  -- With nothing missing, a round changes nothing that counts.
  reconnected_idle :
      (c : Client D) (back : D)
      → c.sending ≡ 0
      → ((reconnected sec c back timeout).sending ≡ 0)
        × ((reconnected sec c back timeout).downloaded ≡ c.downloaded)
  unfolding reconnected
  reconnected_idle c back z = ground arith

  reconnected_done :
      (q : DownloadQueue D) (back : D)
      → (client_at sec q k).sending ≡ 0
      → (missing_for (client_reconnected sec q k back timeout) k ≡ missing_for q k)
        × ((client_at sec (client_reconnected sec q k back timeout) k).sending ≡ 0)
        × ((client_reconnected sec q k back timeout).required ≡ q.required)
  unfolding client_reconnected
  reconnected_done q back z = elim (Option-cases (find_client q k)) [
    | inl e ↦ rw (e, client_reconnected) (refl, z, refl)
    | inr (c, e) ↦
        let c' = reconnected sec c back timeout in
        let (idle, same) = reconnected_idle c back (rw e at z) in
        rw (e, client_reconnected)
          (
            missing_for-put_client sec k q c' ∙ rw (same, missing_for_at sec k q, e) refl,
            rw (client_at-put_client sec k q c') idle,
            required_ids-put_client sec k q c',
          )
  ]

  nothing_offered :
      (q : DownloadQueue D) (sent : D)
      → missing_for q k ≡ []
      → (next_to_send sec q k sent max_attempts).0 ≡ q
  unfolding next_to_send
  nothing_offered q sent e = rw (e, next_to_send) refl

  round_done :
      (q : DownloadQueue D) (t : D × D)
      → (client_at sec q k).sending ≡ 0
      → missing_for q k ≡ []
      → (missing_for (round q t) k ≡ [])
        × ((client_at sec (round q t) k).sending ≡ 0)
        × ((round q t).required ≡ q.required)
  unfolding round
  round_done q (sent, back) z e =
      let (a, b, c) = reconnected_done q back z in rw (nothing_offered q sent e) (a ∙ e, b, c)

  -- A client that is sending nothing and reconnects in time after each of a number of offers has then
  -- downloaded that many of the addons that it lacked, in the order in which they are required.
  pub missing_for-rounds :
      (ts : List (D × D)) (q : DownloadQueue D)
      → 1 ≤ max_attempts
      → WellFormed q.required
      → (client_at sec q k).sending ≡ 0
      → All OnTime ts
      → missing_for (rounds q ts) k ≡ drop (length ts) (missing_for q k)
  unfolding rounds
  missing_for-rounds [] q m w z o = refl
  missing_for-rounds (t ∷ ts) q m w z o = elim (List-cases (missing_for q k)) [
    | inl e ↦
        let (none_left, idle, same) = round_done q t z e in
        missing_for-rounds ts (round q t) m (subst WellFormed (sym same) w) idle o.1
        ∙ rw (none_left, e) (drop_nil (length ts))
    | inr (next, others, e) ↦
        let (fewer, idle, same) = round_first q t next others m w z o.0 e in
        missing_for-rounds ts (round q t) m (subst WellFormed (sym same) w) idle o.1
        ∙ rw (fewer, e) refl
  ]
