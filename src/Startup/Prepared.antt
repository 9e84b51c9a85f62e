-- ===== src/Startup/Prepared.antt =====
-- cmd/cmd/run.go: the start up to the driver: what it leaves, on every path.
use device_network.Prelude.{◌≡◌, refl, sym, subst, true, [], ◌∷◌, String}
use device_network.Prelude.Triples.{Triple, then, modifying, calling}
use device_network.Startup.{
  network_informer, slice_informer, device_informer, Action, read_config, made_client,
  device_network_client, kube_client, requested, indexed, Actions, Outside, act, attempt,
  new_device_cache, new_resolver,
}
use device_network.Startup.Ordered.{same_informer, has, allowed, IsOrdered}

-- The history is this one.
abbrev pub Exactly : Actions → Actions → Type 0
Exactly l h = (h ≡ l) × IsOrdered h

extended : {a : Action} {l h : Actions} → allowed a l ≡ true → Exactly l h → Exactly (a ∷ l) (a ∷ h)
unfolding IsOrdered
extended {a} {l} {h} ok_ (e, ordered) = (cc, (subst (λ x. allowed a x ≡ true) (sym e) ok_, ordered))

module _ (o : Outside) where
  -- A step from a known history.
  pub attempt-Exactly :
      (l : Actions) (a : Action) (message : String)
      → allowed a l ≡ true
      → Triple IsOrdered (Exactly l) (attempt o a message) (Exactly (a ∷ l))
  attempt-Exactly l a message may =
      calling _ _ message (λ h e. (extended may e).1) (λ h e. extended may e)

act-Exactly :
    (l : Actions) (a : Action)
    → allowed a l ≡ true
    → Triple IsOrdered (Exactly l) (act a) (Exactly (a ∷ l))
act-Exactly l a may = modifying _ (λ h e. (extended may e).1) (λ h e. extended may e)

abbrev pub with_clients : Actions
with_clients = made_client kube_client ∷ made_client device_network_client ∷ read_config ∷ []

abbrev pub with_resolver : Actions
with_resolver =
    indexed slice_informer
    ∷ requested network_informer
    ∷ requested slice_informer
    ∷ requested device_informer
    ∷ with_clients

module _ (o : Outside) where
  pub new_resolver-Triple :
      Triple IsOrdered
        (Exactly (requested device_informer ∷ with_clients))
        (new_resolver o)
        (Exactly with_resolver)
  unfolding new_resolver allowed has same_informer
  new_resolver-Triple =
      then (act-Exactly _ _ refl) (then (act-Exactly _ _ refl) (attempt-Exactly o _ _ _ refl))

  pub new_device_cache-Triple :
      Triple IsOrdered
        (Exactly with_clients)
        new_device_cache
        (Exactly (requested device_informer ∷ with_clients))
  unfolding new_device_cache allowed
  new_device_cache-Triple = act-Exactly _ _ refl
