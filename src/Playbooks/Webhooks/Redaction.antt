-- ===== src/Playbooks/Webhooks/Redaction.antt =====
-- apps/api/app/playbooks/webhook_destinations.py: what the public item of a destination hides.
use penguard.Prelude.{String, List, ◌∷◌, ◌≡◌}
use penguard.Playbooks.Webhooks.{Url, redact_webhook_url, segments, Creation, public_item}

-- The secret of a webhook: two creations that differ only in what stands in the path of the URL behind
-- its third segment have the same public item.
pub public_item-hides :
    (urlparse : String → Url) (id now : String) (creation : Creation) (url : String)
    (first second third : String) (rest rest' : List String)
    → (urlparse url).scheme ≡ (urlparse creation.url).scheme
    → (urlparse url).netloc ≡ (urlparse creation.url).netloc
    → segments (urlparse creation.url).path ≡ first ∷ (second ∷ (third ∷ rest))
    → segments (urlparse url).path ≡ first ∷ (second ∷ (third ∷ rest'))
    → public_item urlparse id now now (record creation { url = url })
      ≡ public_item urlparse id now now creation
unfolding redact_webhook_url
public_item-hides urlparse id now creation url first second third rest rest' scheme netloc old new =
    rw (scheme, netloc, old, new)
