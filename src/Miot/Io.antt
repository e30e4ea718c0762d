-- ===== src/Miot/Io.antt =====
-- The asynchronous calls of the package as actions on the world that they run in.
use homelab_apps.Prelude.{ℕ, Bool, Option, none, List, [], ◌∷◌, ◌≡◌, ◌⊎◌, inl, inr, arith, refl}
use homelab_apps.Miot.Error.{Thrown, Attempt, returned, threw}
use homelab_apps.Miot.Clock.{Now, DeviceClock, StampState}
use homelab_apps.Miot.Packet.{Bytes}
use homelab_apps.Miot.Exchange.{Event}

-- What a packet will meet: the events on its socket, and the moment at which the caller goes on.
pub record Reply : Type 0 where
  pub events : List Event
  pub back : Now

-- What a call of the stamp store will meet: its result and the moment at which the caller goes on.
pub record StoreReply : Type 0 where
  pub result : Attempt (Option StampState)
  pub back : Now

-- The state of one MiotDevice (its clock, `_deviceId`, whether it has a stamp store), the present
-- moment, what the network and the store will answer, and what was sent and stored so far.
pub record World : Type 0 where
  pub clock : DeviceClock
  pub device_id : Option ℕ
  pub has_store : Bool
  pub now : Now
  pub network : List Reply
  pub store : List StoreReply
  pub sent : List Bytes
  pub stored : List StampState

abbrev pub Io {ℓ} : Type ℓ → Type ℓ
Io A = World → Attempt A × World

abbrev pub pure {ℓ} : {A : Type ℓ} → A → Io A
pure a w = (returned a, w)

abbrev pub raise {ℓ} : {A : Type ℓ} → Thrown → Io A
raise e w = (threw e, w)

module _ {ℓ κ} {A : Type ℓ} {B : Type κ} where
  abbrev pub continue : Attempt A → (A → World → B) → (Thrown → World → B) → World → B
  continue (returned a) f g w = f a w
  continue (threw e) f g w = g e w

infixl 5 ◌>>=◌ ◌>>◌
abbrev pub ◌>>=◌ {ℓ} : {A B : Type ℓ} → Io A → (A → Io B) → Io B
◌>>=◌ m f w = continue (m w).0 f raise (m w).1

abbrev pub ◌>>◌ {ℓ} : {A B : Type ℓ} → Io A → Io B → Io B
m >> k = m >>= λ _. k

-- try { m } catch (e) { handler e }
abbrev pub try_catch {ℓ} : {A : Type ℓ} → Io A → (Thrown → Io A) → Io A
try_catch m handler w = continue (m w).0 pure handler (m w).1

abbrev pub lift {ℓ} : {A : Type ℓ} → Attempt A → Io A
lift r w = (r, w)

abbrev pub next_reply : World → Reply
next_reply w = elim w.network [ [] ↦ record { events = []; back = w.now } | x ∷ r ↦ x ]

abbrev pub next_store_reply : World → StoreReply
next_store_reply w = elim w.store [
  | [] ↦ record { result = returned none; back = w.now }
  | x ∷ r ↦ x
]

abbrev pub rest {ℓ} : {A : Type ℓ} → List A → List A
rest [] = []
rest (x ∷ xs) = xs

-- How a sequence of two actions can fail, and how it can succeed.
module _ {ℓ} {A B : Type ℓ} (f : A → Io B) (w : World) where
  continue-eq-threw :
      (r : Attempt A) (e : Thrown)
      → (continue r f raise w).0 ≡ threw e
      → (r ≡ threw e) ⊎ ((a : A) × (r ≡ returned a) × ((f a w).0 ≡ threw e))
  continue-eq-threw (returned a) e h = inr (a, refl, h)
  continue-eq-threw (threw e') e h = inl (ground arith)

  continue-eq-returned :
      (r : Attempt A) (b : B)
      → (continue r f raise w).0 ≡ returned b
      → (a : A) × (r ≡ returned a) × ((f a w).0 ≡ returned b)
  continue-eq-returned (returned a) b h = (a, refl, h)
  continue-eq-returned (threw e) b h = cc

module _ {ℓ} {A B : Type ℓ} (m : Io A) (f : A → Io B) (w : World) where
  pub bind-eq-threw :
      (e : Thrown)
      → ((m >>= f) w).0 ≡ threw e
      → ((m w).0 ≡ threw e) ⊎ ((a : A) × ((m w).0 ≡ returned a) × ((f a (m w).1).0 ≡ threw e))
  bind-eq-threw e h = continue-eq-threw f (m w).1 (m w).0 e h

  pub bind-eq-returned :
      (b : B)
      → ((m >>= f) w).0 ≡ returned b
      → (a : A) × ((m w).0 ≡ returned a) × ((f a (m w).1).0 ≡ returned b)
  bind-eq-returned b h = continue-eq-returned f (m w).1 (m w).0 b h

  -- A sequence whose first action returned is the second action, in the world that it left.
  pub bind_of_returned : (a : A) → (m w).0 ≡ returned a → (m >>= f) w ≡ f a (m w).1
  bind_of_returned a h = rw h

  pub bind_of_threw : (e : Thrown) → (m w).0 ≡ threw e → (m >>= f) w ≡ (threw e, (m w).1)
  bind_of_threw e h = rw h
