-- ===== src/Proxy/Server/SetUp.antt =====
-- What `Run` does in front of its loop.
use waltap.Prelude.{◌≡◌, refl, ◌⊎◌, inl, inr, Option, none, some, List, [], ◌∷◌, Bytes}
use waltap.Proxy.Server.{
  Proxy, Network, Start, entered, refused, ping_pools, with_replica, with_primary, set_up,
}

module _ {P : Type 0} where
  -- The pools that are to be closed when `Run` returns, or were.
  unfoldable pub owned : Start P → List P
  owned (entered deferred) = deferred
  owned (refused e closed) = closed

  unfoldable pub made_beside : P → Bytes ⊎ P → List P
  made_beside main (inl e) = main ∷ []
  made_beside main (inr replica) = replica ∷ main ∷ []

  -- The pools that can be made, in the order of their closing.
  unfoldable pub made : Bytes ⊎ P → Bytes ⊎ P → List P
  unfolding made_beside
  made (inl e) second = []
  made (inr main) second = made_beside main second

-- What holds where the loop is entered.
abbrev pub IfEntered : {P : Type 0} → Start P → Type 0 → Type 0
IfEntered (entered deferred) T = T
IfEntered (refused e closed) T = Unit {0}

IfEntered-map : {P T U : Type 0} (start : Start P) → (T → U) → IfEntered start T → IfEntered start U
IfEntered-map (entered deferred) f x = f x
IfEntered-map (refused e closed) f x = tt

module _ {L P : Type 0} (net : Network L P) where
  -- Both pools are made, and both answer a ping.
  abbrev pub IsReady : Proxy L P → Type 0
  IsReady p =
      (main : P) × (replica : P) × (net.new_pool p.primary_dsn ≡ inr main)
      × (net.new_pool p.replica_dsn ≡ inr replica)
      × (net.ping main ≡ none)
      × (net.ping replica ≡ none)

  ping_pools-owned :
      (p : Proxy L P) (main replica : P) (a b : Option Bytes)
      → (owned (ping_pools net p main replica a b).1 ≡ replica ∷ main ∷ [])
        × IfEntered (ping_pools net p main replica a b).1 ((a ≡ none) × (b ≡ none))
  unfolding owned
  ping_pools-owned p main replica (some e) b = (refl, tt)
  ping_pools-owned p main replica none (some e) = (refl, tt)
  ping_pools-owned p main replica none none = (refl, (refl, refl))

  with_replica-owned :
      (p : Proxy L P) (main : P) (second : Bytes ⊎ P)
      → (owned (with_replica net p main second).1 ≡ made_beside main second)
        × IfEntered (with_replica net p main second).1 (
            (replica : P) × (second ≡ inr replica)
            × (net.ping main ≡ none)
            × (net.ping replica ≡ none))
  unfolding owned made_beside
  with_replica-owned p main (inl e) = (refl, tt)
  with_replica-owned p main (inr replica) =
      let (all, pings) =
        ping_pools-owned (record p { replica_pool = some replica }) main replica (net.ping main)
          (net.ping replica) in
      (
        all,
        IfEntered-map
            (ping_pools net (record p { replica_pool = some replica }) main replica (net.ping main)
              (net.ping replica)).1
            (λ (a, b). (replica, refl, a, b)) pings,
      )

  with_primary-owned :
      (p : Proxy L P) (first : Bytes ⊎ P)
      → (owned (with_primary net p first).1 ≡ made first (net.new_pool p.replica_dsn))
        × IfEntered (with_primary net p first).1 (
            (main : P) × (replica : P) × (first ≡ inr main)
            × (net.new_pool p.replica_dsn ≡ inr replica)
            × (net.ping main ≡ none)
            × (net.ping replica ≡ none))
  unfolding owned made
  with_primary-owned p (inl e) = (refl, tt)
  with_primary-owned p (inr main) =
      let (all, ready) =
        with_replica-owned (record p { primary_pool = some main }) main
          (net.new_pool p.replica_dsn) in
      (
        all,
        IfEntered-map
            (with_replica net (record p { primary_pool = some main }) main
              (net.new_pool p.replica_dsn)).1
            (λ (replica, q, a, b). (main, replica, refl, q, a, b)) ready,
      )

  -- In front of its loop `Run` closes, where it returns an error, every pool that it has made and
  -- no other, the replica's first, and else will close both: it enters the loop only if both
  -- pools could be made and both answered a ping.
  pub set_up-owned :
      (ln : L) (p : Proxy L P)
      → (owned (set_up net ln p).1 ≡ made (net.new_pool p.primary_dsn) (net.new_pool p.replica_dsn))
        × IfEntered (set_up net ln p).1 (IsReady p)
  unfolding set_up
  set_up-owned ln p =
      with_primary-owned (record p { listener = some ln }) (net.new_pool p.primary_dsn)
