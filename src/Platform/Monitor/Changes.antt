-- ===== src/Platform/Monitor/Changes.antt =====
-- What the clients of the platform learn of the connection.
use rose_esp.Prelude.{◌≡◌, refl, Bool, true, false, not, List, [], ◌∷◌, arith, sym}
use mathlib.Core.Path.{subst}
use rose_esp.Platform.Monitor.{
  Message, connection_change, hardware_config, Observation, Monitor, start, is_alive, announce,
  welcome, turn, monitor,
}

-- Each change, the last first, is to another state, and the first is from `false`; `b` is the
-- state that they lead to.
abbrev pub Alternates : Bool → List Bool → Type 0
Alternates b [] = b ≡ false
Alternates b (c ∷ cs) = (c ≡ b) × Alternates (not b) cs

module _ {D : Type 0} where
  -- The states that were broadcast, the last first.
  abbrev pub changes : List (Message D) → List Bool
  changes [] = []
  changes (connection_change connected now ∷ messages) = connected ∷ changes messages
  changes (hardware_config config now ∷ messages) = changes messages

  -- Whether the device was alive at the last turn.
  abbrev pub last_alive : Bool → List (Observation D) → Bool
  last_alive b [] = b
  last_alive b (o ∷ observations) = last_alive (is_alive o) observations

  welcome-changes :
      (o : Observation D) (m : Monitor D)
      → (changes (welcome o m).broadcasts ≡ changes m.broadcasts)
        × ((welcome o m).was_connected ≡ m.was_connected)
  unfolding welcome
  welcome-changes o m = (ground arith, ground arith)

  -- The state is the last one that was broadcast.
  abbrev IsTold : Bool → Monitor D → Type 0
  IsTold b m = (m.was_connected ≡ b) × Alternates b (changes m.broadcasts)

  -- A turn of the loop, for the two states that it compares.
  abbrev turned : Bool → Bool → Observation D → Monitor D → Monitor D
  turned true true o m = m
  turned false false o m = m
  turned true false o m =
      welcome o (announce (connection_change true o.now) (record m { was_connected = true }))
  turned false true o m =
      announce (connection_change false o.now) (record m { was_connected = false })

  turn-turned :
      (o : Observation D) (m : Monitor D) (a b : Bool)
      → is_alive o ≡ a
      → m.was_connected ≡ b
      → turn o m ≡ turned a b o m
  unfolding turn
  turn-turned o m true true h g = ground arith
  turn-turned o m false false h g = ground arith
  turn-turned o m true false h g = ground arith
  turn-turned o m false true h g = ground arith

  turned-IsTold :
      (o : Observation D) (m : Monitor D) (a b : Bool) → IsTold b m → IsTold a (turned a b o m)
  turned-IsTold o m true true h = h
  turned-IsTold o m false false h = h
  turned-IsTold o m true false (w, a) =
      let changed = announce (connection_change true o.now) (record m { was_connected = true }) in
      let (e, f) = welcome-changes o changed in (f, subst (Alternates true) (sym e) (refl, a))
  turned-IsTold o m false true (w, a) = (refl, (refl, a))

  turn-IsTold :
      (o : Observation D) (m : Monitor D) (b : Bool) → IsTold b m → IsTold (is_alive o) (turn o m)
  turn-IsTold o m b (w, a) =
      subst (IsTold (is_alive o)) (sym (turn-turned o m (is_alive o) b refl w))
        (turned-IsTold o m (is_alive o) b (w, a))

  monitor-IsTold :
      (observations : List (Observation D)) (m : Monitor D) (b : Bool)
      → IsTold b m
      → IsTold (last_alive b observations) (monitor observations m)
  unfolding monitor
  monitor-IsTold [] m b h = h
  monitor-IsTold (o ∷ observations) m b h =
      monitor-IsTold observations (turn o m) (is_alive o) (turn-IsTold o m b h)

  -- The changes of the connection that the loop broadcasts begin with a connection, alternate, and
  -- the last of them is the state that the last turn found, where none stands for no connection.
  pub monitor-Alternates :
      (observations : List (Observation D))
      → Alternates (last_alive false observations) (changes (monitor observations start).broadcasts)
  monitor-Alternates observations = (monitor-IsTold observations start false (refl, refl)).1
