-- ===== src/Reconnect/Kept.antt =====
-- internal/manager/manager.go and internal/h2proxy/proxy.go: what one round of relayConnectLoop keeps of its proxy.
use malon.Base.{◌≡◌, refl, Bool, true, false, inl, inr}
use malon.Proxy.{Proxy, reset}
use malon.Proxy.Validity.{IsValid, plain-IsValid}
use malon.Proxy.Owned.{IsOwned}
use malon.Connecting.{Response}
use malon.Connecting.Returned.{Outcome}
use malon.Reconnect.{reset_unless}

module _ {W : Type 0} where
  pub reset_unless-idle :
      (first : Bool) (p : Proxy W)
      → (first ≡ true → p.connected ≡ false)
      → (reset_unless first p).connected ≡ false
  unfolding reset
  reset_unless-idle true p h = h refl
  reset_unless-idle false p h = refl

  pub reset_unless-IsValid :
      (first : Bool) (p : Proxy W) → IsValid p → IsValid (reset_unless first p)
  unfolding reset
  reset_unless-IsValid true p v = v
  reset_unless-IsValid false p v = plain-IsValid p.writer false p v

  pub reset_unless-IsOwned :
      (first : Bool) (p : Proxy W) → IsOwned p → IsOwned (reset_unless first p)
  unfolding reset
  reset_unless-IsOwned true p o = o
  reset_unless-IsOwned false p o = o

  pub Outcome-IsOwned :
      (A : Response W → Type 0) (p p' : Proxy W) → Outcome A p p' → IsOwned p → IsOwned p'
  Outcome-IsOwned A p p' (inl (_, same)) o c l open_ = owned c l open_
    where
      owned : IsOwned p'
      owned = rw same o
  Outcome-IsOwned A p p' (inr (_, _, lost)) o c l open_ = absurd (cc (lost.all_closed c l, open_))
