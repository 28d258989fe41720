-- ===== src/Workshop/Queue.antt =====
-- The class `DownloadQueue`. SteamIDs are `int64_t`; a time is a `double`, of which the code uses a
-- difference and two comparisons with it: they are the interface `Seconds`. Attempts and holders do
-- not pass `INT_MAX`, and a negative limit of attempts is as good as 0.
pub mod Sessions
pub mod Progress
pub mod Kick
pub mod Requirements
use mathlib.Core.Option
use voltmod.Strings.Chars.{is_empty}
use voltmod.Workshop.AddonList.{parse_addon_list}
use voltmod.Common.{
  ℕ, zero, suc, ◌+◌, ◌-◌, ◌*◌, ◌/◌, ◌%◌, ◌^◌, ◌≤◌, ◌<◌, ◌≡◌, refl, sym, ap, ◌∙◌, ◌≢◌, ◌↔◌, ◌⊎◌, inl,
  inr, Bool, true, false, not, ◌&&◌, ◌||◌, Option, none, some, List, [], ◌∷◌, ◌++◌, map, arith, ltb,
  leb, ◌==◌, if◌then◌else◌, ltb→lt, lt→ltb, leb→le, ==_iff, tests, Bool-cases, Option-cases, length,
  get_elem?, set, length-append, get_or, take, drop, replicate, take-append-drop, length-take,
  length-drop, length-map, take_of_length-le, keep, any, all, find_if, All, All-append, All-keep,
  All-keep_self, All-map, all_mono, All-keep_both, All-Mem, get_elem?_lt, All-get_elem?, contains,
  ℤ, pos, negsuc, pos_part, neg_part, sub_ℕ, ◌+ℤ◌, ◌-ℤ◌, ◌≤ℤ◌, ltb_ℤ, leb_ℤ, eqb_ℤ, eqb_ℤ_iff,
  ℤ_discrete, Bytes, bytes, text_eq, text_eq_to, text_eq_refl, starts_with, starts_with-append,
  find_key, put_key, erase_key, find_key-put_key, find_key-erase_key,
}

-- The operations on `double` that the queue uses.
pub record Seconds (D : Type 0) : Type 0 where
  pub zero_sec : D
  pub minus : D → D → D
  pub less : D → D → Bool
  pub at_most : D → D → Bool

pub data AddonAction : Type 0 where
  unchanged send trim_to_first kick keep_mounted : AddonAction

pub record AddonDecision : Type 0 where
  pub action : AddonAction
  pub id : ℕ
  pub remaining : ℕ

abbrev pub no_action : AddonDecision
no_action = record { action = unchanged; id = 0; remaining = 0 }

pub record Requirement : Type 0 where
  pub id : ℕ
  pub holders : ℕ

pub record Client (D : Type 0) : Type 0 where
  pub downloaded : List ℕ
  pub sending : ℕ
  pub sent_at : D
  pub attempts : ℕ
  pub left_at : D

pub record DownloadQueue (D : Type 0) : Type 0 where
  pub required : List Requirement
  pub clients : List (ℤ × Client D)

-- `++found->Holders`, or `push_back`.
pub hold : ℕ → List Requirement → List Requirement
hold id [] = record { id = id; holders = 1 } ∷ []
hold id (r ∷ rs) = if r.id == id then record r { holders = r.holders + 1 } ∷ rs else r ∷ hold id rs

-- `--found->Holders <= 0` erases; on ℕ the decrement stops at 0, where the code erases as well.
pub release : ℕ → List Requirement → List Requirement
release id [] = []
release id (r ∷ rs) =
    if r.id == id
    then (if leb r.holders 1 then rs else record r { holders = r.holders - 1 } ∷ rs)
    else r ∷ release id rs

module _ {D : Type 0} where
  unfoldable pub add : DownloadQueue D → ℕ → DownloadQueue D × Bool
  unfolding hold
  add q id = if id == 0 then (q, false) else (record q { required = hold id q.required }, true)

  unfoldable pub remove : DownloadQueue D → ℕ → DownloadQueue D
  unfolding release
  remove q id = record q { required = release id q.required }

  abbrev pub required_ids : DownloadQueue D → List ℕ
  required_ids q = map (λ r. r.id) q.required

  unfoldable pub find_client : DownloadQueue D → ℤ → Option (Client D)
  find_client q steam_id = find_key ℤ_discrete steam_id q.clients

  -- What of the required ids the client found has not downloaded.
  abbrev pub missing_of : List ℕ → Option (Client D) → List ℕ
  missing_of ids none = ids
  missing_of ids (some c) = keep (λ id. not (contains c.downloaded id)) ids

  unfoldable pub missing_for : DownloadQueue D → ℤ → List ℕ
  missing_for q steam_id = missing_of (required_ids q) (find_client q steam_id)

  unfoldable pub client_mount_list : DownloadQueue D → ℤ → List ℕ
  client_mount_list q steam_id = elim (find_client q steam_id) [
    | none ↦ []
    | some c ↦
        keep (λ id. not (not (id == c.sending) && not (contains c.downloaded id))) (required_ids q)
  ]

  pub has_missing : DownloadQueue D → ℤ → Bool
  has_missing q steam_id = elim (find_client q steam_id) [
    | none ↦ not (is_empty q.required)
    | some c ↦ any (λ r. not (contains c.downloaded r.id)) q.required
  ]

  -- Forget every client's progress.
  unfoldable pub clear_progress : DownloadQueue D → DownloadQueue D
  clear_progress q = record q { clients = [] }

module _ {D : Type 0} (sec : Seconds D) where
  abbrev pub new_client : Client D
  new_client = record {
    downloaded = [];
    sending = 0;
    sent_at = sec.zero_sec;
    attempts = 0;
    left_at = sec.zero_sec;
  }

  -- `_clients[steamId]`, which makes an entry where there is none.
  abbrev pub client_at : DownloadQueue D → ℤ → Client D
  client_at q steam_id = Option.get_or (find_client q steam_id) new_client

  pub put_client : DownloadQueue D → ℤ → Client D → DownloadQueue D
  put_client q steam_id c = record q { clients = put_key ℤ_discrete steam_id c q.clients }

  -- The client with one more attempt at `next`.
  abbrev pub with_attempt : Client D → ℕ → Client D
  with_attempt c next = record c { attempts = if c.sending == next then c.attempts + 1 else 1 }

  pub offer : DownloadQueue D → ℤ → D → ℕ → ℕ → ℕ → DownloadQueue D × AddonDecision
  offer q steam_id now max_attempts next others =
      let c = with_attempt (client_at q steam_id) next in
      if ltb max_attempts c.attempts
      then (put_client q steam_id c, record { action = kick; id = next; remaining = 0 })
      else (
        put_client q steam_id (record c { sending = next; sent_at = now }),
        record { action = send; id = next; remaining = others },
      )

  pub next_to_send : DownloadQueue D → ℤ → D → ℕ → DownloadQueue D × AddonDecision
  next_to_send q steam_id now max_attempts = elim (missing_for q steam_id) [
    | [] ↦ (q, no_action)
    | next ∷ others ↦ offer q steam_id now max_attempts next (length others)
  ]

  unfoldable pub mark_sending : DownloadQueue D → ℤ → ℕ → D → DownloadQueue D
  mark_sending q steam_id id now =
      if id == 0
      then q
      else put_client q steam_id
          (record (client_at q steam_id) { sending = id; sent_at = now; attempts = 0 })

  -- What the reconnect of a client makes of its record.
  pub reconnected : Client D → D → D → Client D
  reconnected c now timeout =
      if c.sending == 0
      then record c { left_at = sec.zero_sec }
      else if sec.at_most (sec.minus now c.sent_at) timeout
      then record c {
        left_at = sec.zero_sec;
        downloaded =
            if contains c.downloaded c.sending
            then c.downloaded
            else c.downloaded ++ c.sending ∷ [];
        attempts = 0;
        sending = 0;
      }
      else record c { left_at = sec.zero_sec; sending = 0 }

  pub client_reconnected : DownloadQueue D → ℤ → D → D → DownloadQueue D
  client_reconnected q steam_id now timeout = elim (find_client q steam_id) [
    | none ↦ q
    | some c ↦ put_client q steam_id (reconnected c now timeout)
  ]

  -- Whether a client has been gone longer than `forget_after`.
  abbrev pub is_stale : D → D → Client D → Bool
  is_stale now forget_after c =
      sec.less sec.zero_sec c.left_at && sec.less forget_after (sec.minus now c.left_at)

  abbrev pub mark_left : DownloadQueue D → ℤ → D → DownloadQueue D
  mark_left q steam_id now = elim (find_client q steam_id) [
    | none ↦ q
    | some c ↦ put_client q steam_id (record c { left_at = now })
  ]

  unfoldable pub client_left : DownloadQueue D → ℤ → D → D → DownloadQueue D
  client_left q steam_id now forget_after =
      let marked = mark_left q steam_id now in
      record marked { clients = keep (λ e. not (is_stale now forget_after e.1)) marked.clients }

  -- A join message that sends the client away already, by the addons that it lists.
  unfoldable pub pass_on : DownloadQueue D → ℤ → List ℕ → D → DownloadQueue D × AddonDecision
  pass_on q steam_id [] now = elim (client_mount_list q steam_id) [
    | [] ↦ (q, no_action)
    | id ∷ ids ↦ (q, record { action = keep_mounted; id = id; remaining = 0 })
  ]
  pass_on q steam_id (id ∷ []) now = (mark_sending q steam_id id now, no_action)
  pass_on q steam_id (id ∷ other ∷ others) now = (
    mark_sending q steam_id id now,
    record { action = trim_to_first; id = id; remaining = suc (length others) },
  )

  unfoldable pub decide_join_message :
      DownloadQueue D → ℤ → Bool → Bytes → D → ℕ → DownloadQueue D × AddonDecision
  decide_join_message q steam_id reconnect addons now max_attempts =
      if reconnect
      then pass_on q steam_id (parse_addon_list addons) now
      else next_to_send q steam_id now max_attempts
