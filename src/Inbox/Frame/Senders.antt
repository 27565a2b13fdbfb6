-- ===== src/Inbox/Frame/Senders.antt =====
-- What the checks leave alone from the resolution of the key on, and all of them together.
use fedi.Base.{ℕ, Option, none, some, List, String}
use fedi.HttpSig.{RequestParts, SignatureParams}
use fedi.HttpSig.KeyResolver.{ActorSummary, Cache}
use fedi.Inbox.{ApConfig, World, ApState, Response, client_ip_from_headers, quota_host}
use fedi.Inbox.Checks.{quota_of_host, resolved, verify_sender, admit}
use fedi.Inbox.Handler.{authenticate}
use fedi.Inbox.Frame.{
  IsFramed, next-keeps, need-keeps, guard-keeps, audited-IsFramed, note_strike-IsFramed,
  limit_address-IsFramed, limit-IsFramed, quota-IsFramed, read_signature-IsFramed,
}

module _ {Json : Type 0} (w : World Json) (s : ApState Json) (cfg : ApConfig) where
  resolved-IsFramed :
      (sig : SignatureParams) (t : ApState Json)
      → IsFramed none s t
      → IsFramed none s (resolved w cfg sig t).1
  unfolding IsFramed
  resolved-IsFramed sig t h = h

  pub verify_sender-IsFramed :
      (kind : String) (parts : RequestParts) (sig : SignatureParams) (t : ApState Json)
      → IsFramed none s t
      → IsFramed none s (verify_sender w cfg kind parts sig t).0
  unfolding verify_sender
  verify_sender-IsFramed kind parts sig t h =
      next-keeps (IsFramed none s) _ _ (need-keeps (IsFramed none s) _ _ t h (λ u g. g))
        (λ signing t1 h1.
          let h2 = resolved-IsFramed sig t1 h1 in
          next-keeps (IsFramed none s) _ _
            (need-keeps (IsFramed none s) _ _ _ h2
              (λ u g. audited-IsFramed w none s _ _ _ _ _ (note_strike-IsFramed w none s _ _ u g)))
            (λ summary t3 h3.
              next-keeps (IsFramed none s) _ _
                (guard-keeps (IsFramed none s) _ _ t3 h3 (λ u g.
                  audited-IsFramed w none s _ _ _ _ _
                    (note_strike-IsFramed w none s _ _ _ (note_strike-IsFramed w none s _ _ u g))))
                (λ _ t4 h4. h4)))

  quota_of_host-IsFramed :
      (host : Option (List ℕ)) (bytes : ℕ) (bad : ApState Json → ApState Json × Response)
      (t : ApState Json)
      → ((u : ApState Json) → IsFramed none s u → IsFramed none s (bad u).0)
      → IsFramed none s t
      → IsFramed none s (quota_of_host w cfg host bytes bad t).0
  quota_of_host-IsFramed none bytes bad t k h = h
  quota_of_host-IsFramed (some host) bytes bad t k h =
      quota-IsFramed w none s cfg quota_host _ bytes bad t k h

  admit-IsFramed :
      (bytes : ℕ) (sig : SignatureParams) (summary : ActorSummary) (t : ApState Json)
      → IsFramed none s t
      → IsFramed none s (admit w cfg bytes sig summary t).0
  unfolding admit
  admit-IsFramed bytes sig summary t h =
      next-keeps (IsFramed none s) _ _
        (guard-keeps (IsFramed none s) _ _ t h (λ u g. audited-IsFramed w none s _ _ _ _ u g))
        (λ _ t1 h1.
          next-keeps (IsFramed none s) _ _
            (guard-keeps (IsFramed none s) _ _ t1 h1 (λ u g. audited-IsFramed w none s _ _ _ _ u g))
            (λ _ t2 h2.
              next-keeps (IsFramed none s) _ _
                (limit-IsFramed w none s cfg _ _ _ _ t2 (λ u g. g) h2)
                (λ _ t3 h3.
                  next-keeps (IsFramed none s) _ _
                    (quota-IsFramed w none s cfg _ _ _ _ t3
                      (λ u g. audited-IsFramed w none s _ _ _ _ u g) h3)
                    (λ _ t4 h4.
                      next-keeps (IsFramed none s) _ _
                        (quota-IsFramed w none s cfg _ _ _ _ t4
                          (λ u g. audited-IsFramed w none s _ _ _ _ u g) h4)
                        (λ _ t5 h5.
                          quota_of_host-IsFramed _ _ _ t5
                            (λ u g. audited-IsFramed w none s _ _ _ _ u g) h5)))))

  pub any_cache : (c : Option Cache) (t : ApState Json) → IsFramed c s t → IsFramed none s t
  unfolding IsFramed
  any_cache c t h = (h.0, (h.1.0, (h.1.1.0, tt)))

  pub authenticate-IsFramed :
      (parts : RequestParts) (body : List ℕ) (t : ApState Json)
      → IsFramed none s t
      → IsFramed none s (authenticate w cfg parts body t).0
  unfolding authenticate
  authenticate-IsFramed parts body t h =
      next-keeps (IsFramed none s) _ _
        (limit_address-IsFramed w none s cfg (client_ip_from_headers parts.headers) _ t h)
        (λ _ t1 h1.
          next-keeps (IsFramed none s) _ _
            (read_signature-IsFramed w none s cfg "inbox" parts body t1 h1)
            (λ sig t2 h2.
              next-keeps (IsFramed none s) _ _
                (guard-keeps (IsFramed none s) _ _ t2 h2
                  (λ u g. audited-IsFramed w none s _ _ _ _ u g))
                (λ _ t3 h3.
                  next-keeps (IsFramed none s) _ _
                    (limit-IsFramed w none s cfg _ _ _ _ t3 (λ u g. g) h3)
                    (λ _ t4 h4.
                      next-keeps (IsFramed none s) _ _
                        (verify_sender-IsFramed "inbox" parts sig t4 h4)
                        (λ summary t5 h5.
                          next-keeps (IsFramed none s) _ _ (admit-IsFramed _ sig summary t5 h5)
                            (λ _ t6 h6. h6))))))
