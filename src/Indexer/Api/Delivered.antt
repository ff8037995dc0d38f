-- ===== src/Indexer/Api/Delivered.antt =====
-- Who receives an event.
use stellax.Base.{
  ◌≡◌, refl, Bool, true, false, ◌&&◌, Option, none, some, List, [], ◌∷◌, if◌then◌else◌, count, All,
  arith,
}
use stellax.Indexer.Rows.{Text}
use stellax.Indexer.Watcher.{DecodedEvent}
use stellax.Indexer.Api.{user_of, Client, same_user, wants, broadcast}

abbrev pub IsFor : Option Text → Option Text → Type 0
IsFor none user = Unit
IsFor (some u) user = same_user u user ≡ true

wants-IsFor : (sub user : Option Text) → wants sub user ≡ true → IsFor sub user
wants-IsFor none user h = tt
wants-IsFor (some u) user h = h

kept :
    (ready wanted : Bool) (P : Client → Type 0) (c : Client) (rest : List Client)
    → (ready ≡ true → wanted ≡ true → P c)
    → All P rest
    → All P (if ready then (if wanted then c ∷ rest else rest) else rest)
kept true true P c rest f h = (f refl refl, h)
kept true false P c rest f h = h
kept false wanted P c rest f h = h

-- An event goes to exactly the clients with an open socket that subscribed to everything or to the user
-- it concerns: each such client receives it once, and one that subscribed to another user never does.
-- An event that names no user goes to no client with a subscription to one.
pub broadcast-delivers :
    (ev : DecodedEvent) (clients : List Client) (p : Client → Bool)
    → (count p (broadcast ev clients)
        ≡ count (λ c. (c.is_ready && wants c.subscription (user_of ev)) && p c) clients)
      × All (λ c. (c.is_ready ≡ true) × IsFor c.subscription (user_of ev)) (broadcast ev clients)
unfolding broadcast
broadcast-delivers ev [] p = (refl, tt)
broadcast-delivers ev (c ∷ cs) p =
    let rest = broadcast-delivers ev cs p in
    (
      ground (arith, rest.0),
      kept c.is_ready (wants c.subscription (user_of ev))
          (λ x. (x.is_ready ≡ true) × IsFor x.subscription (user_of ev)) c (broadcast ev cs)
          (λ e k. (e, wants-IsFor c.subscription (user_of ev) k)) rest.1,
    )
