-- ===== src/Actors.antt =====
-- The registry of actors (cd2n-node/actors/actor.go) and the actor that forwards peer-to-peer messages
-- (cd2n-node/actors/p2p_ts_actor.go).
use cess_dcdn_components.Base.Text.{text_eq}
use cess_dcdn_components.Base.Dict.{Dict, insert, lookup, lookup-insert}
use cess_dcdn_components.Base.{
  Action, Bytes, List, Option, [], if◌then◌else◌, is_some, none, ok, panic, pure, refl, some, ◌&&◌,
  ◌>>◌, ◌∷◌, ◌≡◌,
}

-- `struct ActorSystem`: the process identifiers by the actors' names.
pub record ActorSystem : Type 0 where
  pub actors : Dict Bytes

abbrev pub new_actor_system : ActorSystem
new_actor_system = record { actors = [] }

-- `GetGlobalActorSystem`: the system is made when there is none.
unfoldable pub get_global_actor_system : Option ActorSystem → ActorSystem
get_global_actor_system none = new_actor_system
get_global_actor_system (some sys) = sys

-- `RegisterActor` ignores a nil identifier.
unfoldable pub register_actor : Bytes → Option Bytes → ActorSystem → ActorSystem
register_actor name none sys = sys
register_actor name (some pid) sys = record { actors = insert name pid sys.actors }

unfoldable pub get_actor : Bytes → ActorSystem → Option Bytes
get_actor name sys = lookup name sys.actors

-- An actor is found under its name once it is registered, any other name answers as before, and a nil
-- identifier changes nothing.
pub get_actor-register_actor :
    (name other_name : Bytes) (pid : Option Bytes) (sys : ActorSystem)
    → get_actor other_name (register_actor name pid sys)
      ≡ (if is_some pid && text_eq name other_name then pid else get_actor other_name sys)
unfolding get_actor register_actor
get_actor-register_actor name other_name none sys = refl
get_actor-register_actor name other_name (some pid) sys =
    lookup-insert name other_name pid sys.actors

-- `struct P2pNodeActor`: its handlers, as identifiers; the map may be nil.
pub record P2pNodeActor : Type 0 where
  pub handle_map : Option (Dict Bytes)

-- `NewP2pNodeActor` makes no map.
abbrev pub new_p2p_node_actor : P2pNodeActor
new_p2p_node_actor = record { handle_map = none }

-- `RegisterMessageHandle` stores into the map.
unfoldable pub register_message_handle : Bytes → Bytes → Action P2pNodeActor (Unit {0})
register_message_handle option handle peer = elim peer.handle_map [
  | none ↦ (panic, peer)
  | some m ↦ (ok tt, record { handle_map = some (insert option handle m) })
]

-- The handler that `Receive` calls for a message, if there is one.
unfoldable pub receive_message : Bytes → P2pNodeActor → Option Bytes
receive_message option peer = elim peer.handle_map [ none ↦ none | some m ↦ lookup option m ]

-- A sequence of registrations; a panic ends it.
abbrev pub register_all : List (Bytes × Bytes) → Action P2pNodeActor (Unit {0})
register_all [] = pure tt
register_all ((option, handle) ∷ handles) =
    register_message_handle option handle >> register_all handles

-- The actor that `NewP2pNodeActor` makes never calls a handler: the first registration panics, and
-- whatever is registered, no message has a handler after it.
pub receive_message_never :
    (option handle : Bytes) (handles : List (Bytes × Bytes)) (asked : Bytes)
    → ((register_all ((option, handle) ∷ handles) new_p2p_node_actor).0 ≡ panic)
      × (receive_message asked (register_all ((option, handle) ∷ handles) new_p2p_node_actor).1
          ≡ none)
unfolding register_message_handle receive_message
receive_message_never option handle handles asked = (refl, refl)
