-- ===== src/Proxy/Forward/Retry/Ends.antt =====
-- The loop over the keys of a provider in forward.rs ends.
use oidc_agent_compat.Prelude.{
  ℕ, zero, suc, ◌≤◌, ◌<◌, String, ◌==◌, eq_iff, ◌≡◌, refl, sym, ◌∙◌, inl, inr, Bool, true, false,
  ◌&&◌, not, Option, none, some, List, [], ◌∷◌, any, any-sort_by, find, select, count_if,
  count_if-le-length, length, find_sound, if◌then◌else◌, Bool-cases, arith,
}
use oidc_agent_compat.Error.{Error, Result, ok, err}
use oidc_agent_compat.Entity.{Provider, ProviderKey}
use oidc_agent_compat.External.{External}
use oidc_agent_compat.World.{World, continue, relabel, pure, lift, ◌>>=◌, query, execute, map_err}
use oidc_agent_compat.World.Cases.{with_faults}
use oidc_agent_compat.Policy.Merge.{contains}
use oidc_agent_compat.Providers.Access.{groups_with, key_access_groups}
use oidc_agent_compat.Providers.Keys.{
  ResolvedProviderKey, open_key, has_key, access_allows, take_key, choose_key, enabled_keys,
  resolve_key,
}
use oidc_agent_compat.Providers.Keys.Chosen.{opened, with_secret, is_usable, resolve_key-eq-find}
use oidc_agent_compat.Proxy.Upstream.{UpstreamRequest}
use oidc_agent_compat.Proxy.Forward.Retry.{
  ProviderReply, ProviderClient, Outgoing, request_error, is_refused, keyed_request, with_next,
  after_reply, send_loop,
}

-- a row with the id that was not tried
abbrev is_untried : List String → ProviderKey → Bool
is_untried excluded k = not (contains excluded k.id)

abbrev pub untried : List String → World → ℕ
untried excluded w = count_if (is_untried excluded) w.provider_keys

abbrev pub IsUntried : List String → ResolvedProviderKey → World → Type 0
IsUntried excluded key w =
    any (λ (k : ProviderKey). has_key key.id k && is_untried excluded k) w.provider_keys ≡ true

count-le :
    (e : List String) (id : String) (rows : List ProviderKey)
    → count_if (is_untried (id ∷ e)) rows ≤ count_if (is_untried e) rows
count-le e id [] = omega arith
count-le e id (k ∷ rows) = ground (arith, count-le e id rows)

count-lt :
    (e : List String) (id : String) (rows : List ProviderKey)
    → any (λ (k : ProviderKey). has_key id k && is_untried e k) rows ≡ true
    → count_if (is_untried (id ∷ e)) rows < count_if (is_untried e) rows
count-lt e id [] h = ground arith
count-lt e id (k ∷ rows) h =
    ground (arith, eq_iff k.id id, eq_iff id k.id, count-le e id rows, count-lt e id rows)

any-select :
    (p q : ProviderKey → Bool) (rows : List ProviderKey)
    → any p (select q rows) ≡ true
    → any p rows ≡ true
any-select p q [] h = h
any-select p q (k ∷ rows) h = ground (arith, any-select p q rows)

-- a key that is found is among the rows
any_found :
    (p q : ProviderKey → Bool) (rows : List ProviderKey) {k : ProviderKey}
    → find q rows ≡ some k
    → p k ≡ true
    → any p rows ≡ true
any_found p q [] h e = cc h
any_found p q (a ∷ rows) {k} h e = elim (Bool-cases (q a)) [
  | inl t ↦ let same : a ≡ k = ground arith in rw (same, e) refl
  | inr n ↦
      let rest : find q rows ≡ some k = ground arith in ground (arith, any_found p q rows rest e)
]

module _ (x : External) (groups excluded : List String) where
  secret-id :
      (key : ProviderKey) (r : Result Error String) {k : ResolvedProviderKey}
      → with_secret x groups excluded key r ≡ ok (some k)
      → k.id ≡ key.id
  secret-id key (ok s) h = ground arith
  secret-id key (err e) h = ground arith

  abbrev is_it : ResolvedProviderKey → ProviderKey → Bool
  is_it k row = has_key k.id row && is_untried excluded row

  module _ (provider_id : String) (w : World) {k : ResolvedProviderKey} where
    found-IsUntried :
        (o : Option ProviderKey)
        → find (is_usable x groups excluded w) (enabled_keys x groups excluded provider_id w) ≡ o
        → opened x groups excluded o ≡ ok (some k)
        → IsUntried excluded k w
    found-IsUntried none f h = ground (arith, h)
    found-IsUntried (some key) f h =
        let same = secret-id key (open_key x key) h in
        let usable =
          find_sound (is_usable x groups excluded w) (enabled_keys x groups excluded provider_id w)
            f in
        let it : is_it k key ≡ true = ground (arith, eq_iff key.id k.id) in
        let listed =
          any_found (is_it k) (is_usable x groups excluded w)
            (enabled_keys x groups excluded provider_id w) f it in
        any-select (is_it k) (λ (row : ProviderKey). row.provider_id == provider_id && row.enabled)
          w.provider_keys (rw any-sort_by at listed)

    -- what resolution answers is the id of a row that was not tried
    resolved-IsUntried :
        (resolve_key x groups excluded provider_id w).0 ≡ ok (some k) → IsUntried excluded k w
    resolved-IsUntried h = elim (resolve_key-eq-find x groups excluded provider_id w) [
      | inl e ↦
          found-IsUntried
            (find (is_usable x groups excluded w) (enabled_keys x groups excluded provider_id w))
            refl (sym e ∙ h)
      | inr (fault, (m, e)) ↦ let clash = sym e ∙ h in ground (arith, clash)
    ]

  take_key-keys :
      (key : ProviderKey) (w : World)
      → (take_key x groups excluded key w).1.provider_keys ≡ w.provider_keys
  unfolding take_key ◌>>=◌
  take_key-keys key w = go (open_key x key)
    where
      go :
          (r : Result Error String)
          → (◌>>=◌ {B = Option ResolvedProviderKey}
              (lift r)
              (λ secret. pure (some (record { id = key.id; secret = secret })))
              w).1.provider_keys
            ≡ w.provider_keys
      go (ok s) = refl
      go (err e) = refl

  choice-keys :
      (b : Bool) (key : ProviderKey) (keys : List ProviderKey) (w : World)
      (faults : List (Option String))
      → (choose_key x groups excluded keys (with_faults w faults)).1.provider_keys ≡ w.provider_keys
      → ((if b then take_key x groups excluded key else choose_key x groups excluded keys)
          (with_faults w faults)).1.provider_keys
        ≡ w.provider_keys
  choice-keys true key keys w faults h = take_key-keys key (with_faults w faults)
  choice-keys false key keys w faults h = h

  choose_key-keys :
      (keys : List ProviderKey) (w : World) (faults : List (Option String))
      → (choose_key x groups excluded keys (with_faults w faults)).1.provider_keys ≡ w.provider_keys
  unfolding choose_key key_access_groups query execute ◌>>=◌
  choose_key-keys [] w faults = refl
  choose_key-keys (key ∷ keys) w [] = elim (Bool-cases (contains excluded key.id)) [
    | inl e ↦ rw e (choose_key-keys keys w [])
    | inr n ↦ rw n (
        choice-keys (access_allows groups (groups_with key.id w)) key keys w []
          (choose_key-keys keys w []))
  ]
  choose_key-keys (key ∷ keys) w (none ∷ fs) = elim (Bool-cases (contains excluded key.id)) [
    | inl e ↦ rw e (choose_key-keys keys w (none ∷ fs))
    | inr n ↦ rw n (
        choice-keys (access_allows groups (groups_with key.id w)) key keys w fs
          (choose_key-keys keys w fs))
  ]
  choose_key-keys (key ∷ keys) w (some m ∷ fs) = elim (Bool-cases (contains excluded key.id)) [
    | inl e ↦ rw e (choose_key-keys keys w (some m ∷ fs))
    | inr n ↦ rw n refl
  ]

  resolve_with-keys :
      (provider_id : String) (w : World) (faults : List (Option String))
      → (resolve_key x groups excluded provider_id (with_faults w faults)).1.provider_keys
        ≡ w.provider_keys
  unfolding resolve_key query execute ◌>>=◌
  resolve_with-keys provider_id w [] =
      choose_key-keys (enabled_keys x groups excluded provider_id w) w []
  resolve_with-keys provider_id w (none ∷ fs) =
      choose_key-keys (enabled_keys x groups excluded provider_id w) w fs
  resolve_with-keys provider_id w (some m ∷ fs) = refl

  resolve_key-keys :
      (provider_id : String) (w : World)
      → (resolve_key x groups excluded provider_id w).1.provider_keys ≡ w.provider_keys
  resolve_key-keys provider_id w = resolve_with-keys provider_id w w.faults

module _ (x : External) (client : ProviderClient) (groups : List String) (provider : Provider)
    (out : Outgoing) where
  -- a reply or an error, and not that the rounds ran out
  abbrev pub Ended : Result Error (Option ProviderReply) → Type 0
  Ended (ok none) = ⊥
  Ended (ok (some reply)) = Unit
  Ended (err e) = Unit

  module _ (rounds : ℕ) (tried : List String)
      (again : (k : ResolvedProviderKey) (u : World)
        → untried tried u ≤ rounds
        → IsUntried tried k u
        → Ended (send_loop x client groups provider out rounds tried k u).0) where
    resolved-Ended :
        (reply : ProviderReply) (r : Result Error (Option ResolvedProviderKey)) (u : World)
        → untried tried u ≤ rounds
        → ((k : ResolvedProviderKey) → r ≡ ok (some k) → IsUntried tried k u)
        → Ended
            (continue r
              (with_next x client groups provider out
                (send_loop x client groups provider out rounds tried)
                reply)
              u).0
    unfolding with_next ◌>>=◌
    resolved-Ended reply (ok none) u m h = tt
    resolved-Ended reply (ok (some k)) u m h = again k u m (h k refl)
    resolved-Ended reply (err e) u m h = tt

    reply-Ended :
        (reply : ProviderReply) (v : World)
        → untried tried v ≤ rounds
        → Ended
            (after_reply x client groups provider out
              (send_loop x client groups provider out rounds tried)
              tried
              reply
              v).0
    unfolding after_reply ◌>>=◌
    reply-Ended reply v m = elim (Bool-cases (is_refused reply.status)) [
      | inr n ↦ rw n tt
      | inl t ↦
          let (r, u) = resolve_key x groups tried provider.id v in
          let same = resolve_key-keys x groups tried provider.id v in
          rw t (
            resolved-Ended reply r u (rw same m) (λ k e.
              let found = resolved-IsUntried x groups tried provider.id v e in rw same found))
    ]

    sent-Ended :
        (r : Result String ProviderReply) (v : World)
        → untried tried v ≤ rounds
        → Ended
            (continue
              (relabel request_error r)
              (after_reply x client groups provider out
                (send_loop x client groups provider out rounds tried)
                tried)
              v).0
    sent-Ended (ok reply) v m = reply-Ended reply v m
    sent-Ended (err e) v m = tt

  module _
      (keeps : (q : UpstreamRequest) (w : World)
        → (client q w).1.provider_keys ≡ w.provider_keys) where
    rounds_enough :
        (rounds : ℕ) (excluded : List String) (key : ResolvedProviderKey) (w : World)
        → untried excluded w ≤ rounds
        → IsUntried excluded key w
        → Ended (send_loop x client groups provider out rounds excluded key w).0
    unfolding send_loop map_err ◌>>=◌
    rounds_enough zero excluded key w m h =
        absurd (omega (arith, count-lt excluded key.id w.provider_keys h))
    rounds_enough (suc rounds) excluded key w m h =
        let request = keyed_request provider out key in
        let (r, v) = client request w in
        let fewer : untried (key.id ∷ excluded) w ≤ rounds =
          omega (arith, count-lt excluded key.id w.provider_keys h) in
        sent-Ended rounds (key.id ∷ excluded) (rounds_enough rounds (key.id ∷ excluded)) r v
          (rw (keeps request w) fewer)

    -- If the exchange with the provider leaves the keys in the table as they are, the loop over the
    -- keys ends with a reply or an error within as many rounds as there are keys in the table.
    pub send_loop-Ended :
        (w : World) {key : ResolvedProviderKey}
        → (resolve_key x groups [] provider.id w).0 ≡ ok (some key)
        → let v = (resolve_key x groups [] provider.id w).1 in
          Ended (send_loop x client groups provider out (length v.provider_keys) [] key v).0
    send_loop-Ended w {key} h =
        let v = (resolve_key x groups [] provider.id w).1 in
        let same = resolve_key-keys x groups [] provider.id w in
        let found = resolved-IsUntried x groups [] provider.id w h in
        rounds_enough (length v.provider_keys) [] key v
          (count_if-le-length (is_untried []) v.provider_keys) (rw same found)
