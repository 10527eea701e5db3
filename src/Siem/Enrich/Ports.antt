-- ===== src/Siem/Enrich/Ports.antt =====
-- apps/siem_kowalski/app/main.py: which events the two port-scan enrichments turn into scans.
use penguard.Prelude.{
  ◌≤◌, String, List, [], ◌∷◌, ◌++◌, ◌≡◌, refl, Bool, true, false, ◌&&◌, ◌||◌, Option, none, some,
  ◌⊎◌, inl, inr, arith, any, All, All-imp, length, ltb, Bool-cases,
}
use penguard.Prelude.Json.{ℤ, pos, negsuc}
use penguard.Prelude.Values.{Builtins, eqℤ}
use penguard.Siem.Models.{SecurityEvent}
use penguard.Siem.Rules.{coerce_number}
use penguard.Siem.Store.{SiemStore, list_recent_events}
use penguard.Siem.Enrich.{attribute, id_list}
use penguard.Siem.Enrich.Flood.{same_port}
use penguard.Siem.Enrich.Scans.{
  Flow, scan_ports, scan_event, enrich_flow, has_recent_scan_event, counts, add_port,
  add_event_port,
}

-- No two of them are the same.
abbrev Distinct : List ℤ → Type 0
Distinct [] = Unit
Distinct (port ∷ ports) = (any (eqℤ port) ports ≡ false) × Distinct ports

eqℤ_comm : (a b : ℤ) → eqℤ a b ≡ eqℤ b a
eqℤ_comm (pos a) (pos b) = ground arith
eqℤ_comm (pos a) (negsuc b) = refl
eqℤ_comm (negsuc a) (pos b) = refl
eqℤ_comm (negsuc a) (negsuc b) = ground arith

any-append : (p : ℤ → Bool) (xs ys : List ℤ) → any p (xs ++ ys) ≡ (any p xs || any p ys)
any-append p [] ys = refl
any-append p (x ∷ xs) ys = ground (arith, any-append p xs ys)

append-Distinct :
    (port : ℤ) (ports : List ℤ)
    → Distinct ports
    → any (eqℤ port) ports ≡ false
    → Distinct (ports ++ port ∷ [])
append-Distinct port [] h k = (refl, tt)
append-Distinct port (first ∷ ports) h k = (
  ground (arith, h.0, k, any-append (eqℤ first) ports (port ∷ []), eqℤ_comm first port),
  append-Distinct port ports h.1 (ground (arith, k)),
)

add_port-Distinct : (port : ℤ) (ports : List ℤ) → Distinct ports → Distinct (add_port port ports)
add_port-Distinct port ports h = elim (Bool-cases (any (eqℤ port) ports)) [
  | inl e ↦ rw e h
  | inr e ↦ rw e (append-Distinct port ports h e)
]

-- The ports that the loop collects stay distinct, and whatever holds of the ports it starts with
-- and of the port of each event that counts holds of all.
module _ (py : Builtins) (passes : SecurityEvent → Bool) (event : SecurityEvent)
    (P : ℤ → Type 0) where
  abbrev Allows : SecurityEvent → Type 0
  Allows previous =
      (port : ℤ)
      → counts passes event previous ≡ true
      → coerce_number py (attribute "destinationPort" previous) ≡ some port
      → P port

  append-All : (port : ℤ) (ports : List ℤ) → All P ports → P port → All P (ports ++ port ∷ [])
  append-All port [] h k = (k, tt)
  append-All port (first ∷ ports) h k = (h.0, append-All port ports h.1 k)

  add_port-All : (port : ℤ) (ports : List ℤ) → All P ports → P port → All P (add_port port ports)
  add_port-All port ports h k = elim (Bool-cases (any (eqℤ port) ports)) [
    | inl e ↦ rw e h
    | inr e ↦ rw e (append-All port ports h k)
  ]

  abbrev IsGood : List ℤ → Type 0
  IsGood ports = Distinct ports × All P ports

  add_event_port-IsGood :
      (number : Option ℤ) (previous : SecurityEvent) (seen : List ℤ × List String)
      → IsGood seen.0
      → ((port : ℤ) → number ≡ some port → P port)
      → IsGood (add_event_port number previous seen).0
  add_event_port-IsGood none previous seen h k = h
  add_event_port-IsGood (some port) previous seen h k =
      (add_port-Distinct port seen.0 h.0, add_port-All port seen.0 h.1 (k port refl))

  scan_ports-IsGood :
      (events : List SecurityEvent) (seen : List ℤ × List String)
      → All Allows events
      → IsGood seen.0
      → IsGood (scan_ports py passes event events seen).0
  unfolding scan_ports
  scan_ports-IsGood [] seen h k = k
  scan_ports-IsGood (previous ∷ rest) seen h k = elim (Bool-cases (counts passes event previous)) [
    | inl e ↦
        let number = coerce_number py (attribute "destinationPort" previous) in
        rw (scan_ports, e)
          (scan_ports-IsGood rest (add_event_port number previous seen) h.1
            (add_event_port-IsGood number previous seen k (λ port n. h.0 port e n)))
    | inr e ↦ rw (scan_ports, e) (scan_ports-IsGood rest seen h.1 k)
  ]

-- An earlier event that counts, and its port.
abbrev has_port : Builtins → (SecurityEvent → Bool) → SecurityEvent → ℤ → SecurityEvent → Bool
has_port py passes event port previous =
    counts passes event previous
    && same_port (coerce_number py (attribute "destinationPort" previous)) (some port)

eqℤ_refl : (a : ℤ) → eqℤ a a ≡ true
eqℤ_refl (pos a) = ground arith
eqℤ_refl (negsuc a) = ground arith

-- The flow's own port, or that of an event that counts.
abbrev Seen :
    Builtins → (SecurityEvent → Bool) → SecurityEvent → Flow → List SecurityEvent → ℤ → Type 0
Seen py passes event flow events port =
    (port ≡ flow.destination_port) ⊎ (any (has_port py passes event port) events ≡ true)

events-Allow :
    (py : Builtins) (passes : SecurityEvent → Bool) (event : SecurityEvent)
    (events : List SecurityEvent)
    → All
        (Allows py passes event (λ port. any (has_port py passes event port) events ≡ true))
        events
events-Allow py passes event [] = tt
events-Allow py passes event (previous ∷ rest) = (
  λ port e n. rw (e, n, eqℤ_refl),
  All-imp (Allows py passes event (λ port. any (has_port py passes event port) rest ≡ true))
      (Allows py passes event
        (λ port. any (has_port py passes event port) (previous ∷ rest) ≡ true))
      rest (λ other later port e n. let seen = later port e n in ground (arith, seen))
      (events-Allow py passes event rest),
)

abbrev pub recent : String → SiemStore → List SecurityEvent
recent event_type s = list_recent_events (some event_type) 250 s

-- An event that stays as it is, or that is a scan of at least twenty distinct ports.
abbrev pub IsScan :
    Builtins
    → String
    → (SecurityEvent → Bool)
    → SecurityEvent
    → Flow
    → List SecurityEvent
    → SecurityEvent
    → Type 0
IsScan py attack passes event flow events result =
    (ports : List ℤ) × ((ids : List String) × ((result ≡ scan_event attack flow event ports ids)
        × ((20 ≤ length ports) × (Distinct ports × All (Seen py passes event flow events) ports))))

-- No false scans: what either port-scan enrichment returns for a flow is the event as it came, or a
-- scan whose ports are at least twenty, no two the same, and each the flow's own or that of a recent
-- event that counts for the flow.
pub enrich_flow-cases :
    (py : Builtins) (attack event_type : String) (passes : SecurityEvent → Bool) (flow : Flow)
    (event : SecurityEvent) (s : SiemStore)
    → (enrich_flow py attack event_type passes (some flow) event s ≡ event)
      ⊎ IsScan py attack passes event flow
          (recent event_type s)
          (enrich_flow py attack event_type passes (some flow) event s)
enrich_flow-cases py attack event_type passes flow event s =
    let events = recent event_type s in
    let first : List ℤ × List String = (flow.destination_port ∷ [], id_list event.id) in
    let found = scan_ports py passes event events first in
    let P = Seen py passes event flow events in
    let allowed =
      All-imp (Allows py passes event (λ port. any (has_port py passes event port) events ≡ true))
        (Allows py passes event P) events (λ other f port e n. inr (f port e n))
        (events-Allow py passes event events) in
    let good =
      scan_ports-IsGood py passes event P events first allowed ((refl, tt), (inl refl, tt)) in
    elim (Bool-cases (has_recent_scan_event attack flow event s)) [
      | inl e ↦ inl (rw e)
      | inr e ↦ elim (Bool-cases (ltb (length found.0) 20)) [
        | inl k ↦ inl (rw (e, k))
        | inr k ↦ inr (rw (e, k) (found.0, (found.1, (refl, (ground arith, good)))))
      ]
    ]
