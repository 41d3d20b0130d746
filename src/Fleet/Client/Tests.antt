-- ===== src/Fleet/Client/Tests.antt =====
-- A client without host keys, and one with them.
use amarre.Base.{String, none, ok, err, ◌≡◌, refl}
use amarre.Fleet.Client.{new_client}

unconfigured :
    new_client {S = String} {K = String} (ok "pem") (λ t. ok t) "" none (ok "keys")
    ≡ err "known_hosts non configuré : la vérification des clés d'hôte est obligatoire"
unfolding new_client
unconfigured = refl

configured :
    new_client {S = String} {K = String} (ok "pem") (λ t. ok t) "hosts" none (ok "keys")
    ≡ ok ("pem", "keys")
unfolding new_client
configured = refl
