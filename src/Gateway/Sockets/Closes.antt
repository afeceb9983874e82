-- ===== src/Gateway/Sockets/Closes.antt =====
-- The shutdown closes what is open.
use sn.Base.{
  ap, sym, ◌∙◌, subst, ◌≡◌, refl, inl, inr, ◌||◌, ℕ, Bool, true, false, List, [], ◌∷◌, ◌++◌, ◌==◌,
  Bool-cases, ==_iff, ℤ, pos, negsuc, is_negative, if◌then◌else◌,
}
use sn.Common.{Port, port0, port1, NodeConfig}
use sn.Gateway.{Gateway}
use sn.Gateway.Loop.{Sockets}
use sn.Gateway.Sockets.{
  Call, socket_call, set_option, bind_port, join_group, set_nonblocking, close_call, sacn_init,
  artnet_init, shownet_init, open_protocol, cleanup, one_port_fds, port_fds, closes, shutdown,
  same_fd, removed, open_after,
}

abbrev among : ℤ → List ℤ → Bool
among y [] = false
among y (x ∷ xs) = same_fd y x || among y xs

abbrev AllAmong : List ℤ → List ℤ → Type 0
AllAmong [] xs = Unit
AllAmong (y ∷ ys) xs = (among y xs ≡ true) × AllAmong ys xs

same_fd_refl : (x : ℤ) → same_fd x x ≡ true
same_fd_refl (pos a) = (==_iff a a).1 refl
same_fd_refl (negsuc a) = (==_iff a a).1 refl

removed-AllAmong : (x : ℤ) (ys xs : List ℤ) → AllAmong ys (x ∷ xs) → AllAmong (removed x ys) xs
removed-AllAmong x [] xs h = tt
removed-AllAmong x (y ∷ ys) xs (h, k) = elim (Bool-cases (same_fd y x)) [
  | inl e ↦ rw e (removed-AllAmong x ys xs k)
  | inr e ↦ rw e (subst (λ b. b || among y xs ≡ true) e h, removed-AllAmong x ys xs k)
]

-- Closing a list of descriptors leaves none of them.
closes_all : (xs ys : List ℤ) → AllAmong ys xs → open_after (closes xs) ys ≡ []
unfolding open_after
closes_all [] [] h = refl
closes_all [] (y ∷ ys) (h, k) = absurd (cc h)
closes_all (x ∷ xs) ys h = closes_all xs (removed x ys) (removed-AllAmong x ys xs h)

among-append_right : (y : ℤ) (xs zs : List ℤ) → among y zs ≡ true → among y (xs ++ zs) ≡ true
among-append_right y [] zs h = h
among-append_right y (x ∷ xs) zs h = elim (Bool-cases (same_fd y x)) [
  | inl e ↦ rw e refl
  | inr e ↦ rw e (among-append_right y xs zs h)
]

AllAmong-append_right : (ys xs zs : List ℤ) → AllAmong ys zs → AllAmong ys (xs ++ zs)
AllAmong-append_right [] xs zs h = tt
AllAmong-append_right (y ∷ ys) xs zs (h, k) =
    (among-append_right y xs zs h, AllAmong-append_right ys xs zs k)

AllAmong-cons : (x : ℤ) (ys xs : List ℤ) → AllAmong ys xs → AllAmong ys (x ∷ xs)
AllAmong-cons x ys xs h = AllAmong-append_right ys (x ∷ []) xs h

AllAmong-refl : (xs : List ℤ) → AllAmong xs xs
AllAmong-refl [] = tt
AllAmong-refl (x ∷ xs) = (rw (same_fd_refl x) refl, AllAmong-cons x xs xs (AllAmong-refl xs))

open_after-append :
    (calls more : List Call) (fds : List ℤ)
    → open_after (calls ++ more) fds ≡ open_after more (open_after calls fds)
unfolding open_after
open_after-append [] more fds = refl
open_after-append (socket_call fd ∷ calls) more fds = open_after-append calls more _
open_after-append (set_option _ _ ∷ calls) more fds = open_after-append calls more fds
open_after-append (bind_port _ _ ∷ calls) more fds = open_after-append calls more fds
open_after-append (join_group _ _ ∷ calls) more fds = open_after-append calls more fds
open_after-append (set_nonblocking _ ∷ calls) more fds = open_after-append calls more fds
open_after-append (close_call fd ∷ calls) more fds = open_after-append calls more _

-- What an initialisation leaves open is among what the cleanup of its result closes and what was
-- open before.
abbrev Leaves : ℤ × List Call → Type 0
Leaves result = (fds : List ℤ) → AllAmong (open_after result.1 fds) (cleanup result.0 ++ fds)

removed-Among : (x : ℤ) (fds : List ℤ) → AllAmong (removed x (x ∷ fds)) fds
removed-Among x fds =
    removed-AllAmong x (x ∷ fds) fds
      (rw (same_fd_refl x) refl, AllAmong-cons x fds fds (AllAmong-refl fds))

sacn_init-Leaves : (sock : ℤ) (bound : Bool) (universe : ℕ) → Leaves (sacn_init sock bound universe)
unfolding sacn_init open_after
sacn_init-Leaves (negsuc n) bound universe fds = AllAmong-refl fds
sacn_init-Leaves (pos n) true universe fds = AllAmong-refl (pos n ∷ fds)
sacn_init-Leaves (pos n) false universe fds = removed-Among (pos n) fds

artnet_init-Leaves : (sock : ℤ) (bound : Bool) → Leaves (artnet_init sock bound)
unfolding artnet_init open_after
artnet_init-Leaves (negsuc n) bound fds = AllAmong-refl fds
artnet_init-Leaves (pos n) true fds = AllAmong-refl (pos n ∷ fds)
artnet_init-Leaves (pos n) false fds = removed-Among (pos n) fds

shownet_init-Leaves : (sock : ℤ) (bound : Bool) → Leaves (shownet_init sock bound)
unfolding shownet_init open_after
shownet_init-Leaves (negsuc n) bound fds = AllAmong-refl fds
shownet_init-Leaves (pos n) true fds = AllAmong-refl (pos n ∷ fds)
shownet_init-Leaves (pos n) false fds = removed-Among (pos n) fds

-- What the shutdown closes.
abbrev shutdown_fds : Sockets → Gateway → List ℤ
shutdown_fds s g =
    cleanup s.sacn_sock ++ (cleanup s.artnet_sock ++ (cleanup s.shownet_sock ++ port_fds g))

same_fd_eq : (x y : ℤ) → same_fd x y ≡ true → x ≡ y
same_fd_eq (pos a) (pos b) h = ap pos ((==_iff a b).0 h)
same_fd_eq (pos a) (negsuc b) h = absurd (cc h)
same_fd_eq (negsuc a) (pos b) h = absurd (cc h)
same_fd_eq (negsuc a) (negsuc b) h = ap negsuc ((==_iff a b).0 h)

among-AllAmong :
    (y : ℤ) (fds zs : List ℤ) → among y fds ≡ true → AllAmong fds zs → among y zs ≡ true
among-AllAmong y [] zs h all = absurd (cc h)
among-AllAmong y (x ∷ fds) zs h (first, all) = elim (Bool-cases (same_fd y x)) [
  | inl e ↦ subst (λ v. among v zs ≡ true) (sym (same_fd_eq y x e)) first
  | inr e ↦ among-AllAmong y fds zs (subst (λ b. b || among y fds ≡ true) e h) all
]

-- What is among a list and another is among the list and what the other is among.
among-append :
    (y : ℤ) (xs fds zs : List ℤ)
    → AllAmong fds zs
    → among y (xs ++ fds) ≡ true
    → among y (xs ++ zs) ≡ true
among-append y [] fds zs all h = among-AllAmong y fds zs h all
among-append y (x ∷ xs) fds zs all h = elim (Bool-cases (same_fd y x)) [
  | inl e ↦ rw e refl
  | inr e ↦ rw e (among-append y xs fds zs all (subst (λ b. b || among y (xs ++ fds) ≡ true) e h))
]

AllAmong-append :
    (ys xs fds zs : List ℤ) → AllAmong fds zs → AllAmong ys (xs ++ fds) → AllAmong ys (xs ++ zs)
AllAmong-append [] xs fds zs all h = tt
AllAmong-append (y ∷ ys) xs fds zs all (h, k) =
    (among-append y xs fds zs all h, AllAmong-append ys xs fds zs all k)

-- A port holds the descriptor of its device, if that is open, and the one of its transmitter, if
-- that is set up and has a socket.
pub data Held (g : Gateway) (fd : ℤ) : Type 0 where
  device : (p : Port) → is_negative (g.fds p) ≡ false → fd ≡ g.fds p → Held g fd
  transmitter :
      (p : Port)
      → g.sacn_tx_active p ≡ true
      → is_negative (g.sacn_tx p).sock_fd ≡ false
      → fd ≡ (g.sacn_tx p).sock_fd
      → Held g fd

abbrev pub AllHeld : Gateway → List ℤ → Type 0
AllHeld g [] = Unit
AllHeld g (fd ∷ fds) = Held g fd × AllHeld g fds

among-append_left : (y : ℤ) (xs zs : List ℤ) → among y xs ≡ true → among y (xs ++ zs) ≡ true
among-append_left y [] zs h = absurd (cc h)
among-append_left y (x ∷ xs) zs h = elim (Bool-cases (same_fd y x)) [
  | inl e ↦ rw e refl
  | inr e ↦ rw e (among-append_left y xs zs (subst (λ b. b || among y xs ≡ true) e h))
]

among-cleanup : (fd : ℤ) → is_negative fd ≡ false → among fd (cleanup fd) ≡ true
among-cleanup (pos a) h = rw (same_fd_refl (pos a)) refl
among-cleanup (negsuc a) h = absurd (cc h)

one_port-device :
    (g : Gateway) (p : Port)
    → is_negative (g.fds p) ≡ false
    → among (g.fds p) (one_port_fds g p) ≡ true
one_port-device g p h =
    among-append_right (g.fds p) (if g.sacn_tx_active p then cleanup (g.sacn_tx p).sock_fd else [])
      (cleanup (g.fds p)) (among-cleanup (g.fds p) h)

one_port-transmitter :
    (g : Gateway) (p : Port)
    → g.sacn_tx_active p ≡ true
    → is_negative (g.sacn_tx p).sock_fd ≡ false
    → among (g.sacn_tx p).sock_fd (one_port_fds g p) ≡ true
one_port-transmitter g p active h = rw active (
    among-append_left (g.sacn_tx p).sock_fd (cleanup (g.sacn_tx p).sock_fd) (cleanup (g.fds p))
      (among-cleanup (g.sacn_tx p).sock_fd h))

of_port :
    (g : Gateway) (y : ℤ) (p : Port)
    → among y (one_port_fds g p) ≡ true
    → among y (port_fds g) ≡ true
unfolding port_fds
of_port g y port0 h = among-append_left y (one_port_fds g port0) (one_port_fds g port1) h
of_port g y port1 h = among-append_right y (one_port_fds g port0) (one_port_fds g port1) h

among-Held : (g : Gateway) (y : ℤ) → Held g y → among y (port_fds g) ≡ true
among-Held g y (device p h e) =
    subst (λ v. among v (port_fds g) ≡ true) (sym e) (of_port g (g.fds p) p (one_port-device g p h))
among-Held g y (transmitter p active h e) =
    subst (λ v. among v (port_fds g) ≡ true) (sym e)
      (of_port g (g.sacn_tx p).sock_fd p (one_port-transmitter g p active h))

AllHeld-AllAmong : (g : Gateway) (fds : List ℤ) → AllHeld g fds → AllAmong fds (port_fds g)
AllHeld-AllAmong g [] h = tt
AllHeld-AllAmong g (fd ∷ fds) (h, k) = (among-Held g fd h, AllHeld-AllAmong g fds k)

opened-Leaves :
    (sock : ℤ) (bound : Bool) (c : NodeConfig) (g : Gateway) (fds : List ℤ)
    → AllAmong fds (port_fds g)
    → AllAmong
        (open_after (open_protocol sock bound c).1 fds)
        (shutdown_fds (open_protocol sock bound c).0 g)
unfolding open_protocol open_after
opened-Leaves sock bound c g fds all = elim (Bool-cases (c.active_protocol == 1)) [
  | inl e ↦
      let r = sacn_init sock bound (c.ports port0).universe in
      rw e (
        AllAmong-append (open_after r.1 fds) (cleanup r.0) fds (port_fds g) all
          (sacn_init-Leaves sock bound (c.ports port0).universe fds))
  | inr e ↦ elim (Bool-cases (c.active_protocol == 2)) [
    | inl k ↦
        let r = artnet_init sock bound in
        rw (e, k)
          (AllAmong-append (open_after r.1 fds) (cleanup r.0) fds (port_fds g) all
            (artnet_init-Leaves sock bound fds))
    | inr k ↦ elim (Bool-cases (c.active_protocol == 3)) [
      | inl l ↦
          let r = shownet_init sock bound in
          rw (e, k, l)
            (AllAmong-append (open_after r.1 fds) (cleanup r.0) fds (port_fds g) all
              (shownet_init-Leaves sock bound fds))
      | inr l ↦ rw (e, k, l) all
    ]
  ]
]

-- Whatever `socket` and `bind` answer and whatever the configuration, if the protocol socket is
-- opened while the open descriptors are some that the ports hold, of their devices and of their
-- transmitters, then after the shutdown no descriptor is open.
pub open_after-shutdown :
    (sock : ℤ) (bound : Bool) (c : NodeConfig) (g : Gateway) (fds : List ℤ)
    → AllHeld g fds
    → open_after ((open_protocol sock bound c).1 ++ shutdown (open_protocol sock bound c).0 g) fds
      ≡ []
unfolding shutdown
open_after-shutdown sock bound c g fds held =
    open_after-append (open_protocol sock bound c).1 _ fds
    ∙ closes_all (shutdown_fds (open_protocol sock bound c).0 g)
        (open_after (open_protocol sock bound c).1 fds)
        (opened-Leaves sock bound c g fds (AllHeld-AllAmong g fds held))
