-- ===== src/Daemon/Pair/Agree.antt =====
-- Two devices that pair show the same comparison code.
use lanclip.Base.{
  ◌≡◌, sym, ap, ◌∙◌, ◌&&◌, Option, some, Text, text_eq, text_eq_iff, Result-cases, Option-cases,
  Bool-cases, inl, inr, arith,
}
use lanclip.Base.Dict.{lookup}
use lanclip.Base.Unicode.{Unicode}
use lanclip.Identity.Hex.{Sha256, fingerprint}
use lanclip.Identity.Certificate.{Certificate}
use lanclip.Pairing.Types.{Peer, Store}
use lanclip.Pairing.Store.{Call}
use lanclip.Pairing.Changes.{put_pending}
use lanclip.Pairing.Changes.Stored.{put_pending-Stored}
use lanclip.Pairing.Code.{Side, comparison_code, comparison_code_comm}
use lanclip.Pairing.Name.{normalize_device_name}
use lanclip.Protocol.{Message}
use lanclip.Daemon.Pair.{
  Device, pair_message, offer_kind, answer_kind, request, side, sender, is_sound, is_answer,
  answer_offer, accept_answer,
}

-- What answer_offer leaves behind when it answers: the answer names this device, and the pending
-- entry of the other one has the code of the two sides.
record Answered (u : Unicode) (h : Sha256) (c : Call) (d : Device) (cert : Certificate)
    (m a : Message) (own : Option Text) (s : Store) : Type 0 where
  nonce : Text
  entry : Peer
  is_answered : a ≡ pair_message answer_kind d nonce
  same_pin : m.fingerprint ≡ fingerprint h cert.raw
  found : lookup m.device_id (answer_offer u h c d cert m own s).0.pending_peers ≡ some entry
  code : entry.comparison_code ≡ comparison_code h.sum (side d nonce) (sender m)

module _ (u : Unicode) (h : Sha256) where
  answer_offer-Answered :
      (c : Call) (d : Device) (cert : Certificate) (m a : Message) (own : Option Text) (s : Store)
      → (answer_offer u h c d cert m own s).1 ≡ some a
      → Answered u h c d cert m a own s
  unfolding answer_offer is_sound
  answer_offer-Answered c d cert m a own s e =
      let actual = fingerprint h cert.raw in
      elim (Bool-cases (text_eq m.kind offer_kind && is_sound u cert actual m)) [
        | inr f ↦ absurd (ground (arith, f))
        | inl f ↦ elim (Option-cases own) [
          | inl g ↦ absurd (ground (arith, f, g))
          | inr (nonce, g) ↦
              let peer : Side = record {
                id = m.device_id;
                fingerprint = actual;
                nonce = m.nonce;
              } in
              let p =
                request m.device_id (normalize_device_name u m.name) actual
                  (comparison_code h.sum (side d nonce) peer) in
              elim (Result-cases (put_pending c p s).1) [
                | inl x ↦
                    let out = put_pending-Stored c p x.0 s x.1 in
                    let sound = (text_eq_iff m.fingerprint actual).0 (ground (arith, f)) in
                    let left : (answer_offer u h c d cert m own s).0 ≡ (put_pending c p s).0 =
                      rw (f, g) (ground (arith, x.1)) in
                    record {
                      nonce = nonce;
                      entry = x.0;
                      is_answered = ground (arith, f, g, x.1);
                      same_pin = sound;
                      found = ap (λ r. lookup m.device_id r.pending_peers) left ∙ out.found;
                      code =
                          out.code
                          ∙ ap
                              (λ fp.
                                comparison_code h.sum (side d nonce)
                                  (record { id = m.device_id; fingerprint = fp; nonce = m.nonce }))
                              (sym sound);
                    }
                | inr x ↦ absurd (ground (arith, f, g, x.1))
              ]
        ]
      ]

  accept_answer-code :
      (c : Call) (d : Device) (cert : Certificate) (id fp nonce : Text) (m : Message) (s : Store)
      (p : Peer)
      → (accept_answer u h c d cert id fp nonce m s).1 ≡ some p
      → p.comparison_code ≡ comparison_code h.sum (side d nonce) (sender m)
  unfolding accept_answer
  accept_answer-code c d cert id fp nonce m s p e =
      elim (Bool-cases (is_answer u h c d cert id fp m)) [
        | inr f ↦ absurd (ground (arith, f))
        | inl f ↦
            let code = comparison_code h.sum (side d nonce) (sender m) in
            let asked =
              request m.device_id (normalize_device_name u m.name) (fingerprint h cert.raw) code in
            elim (Result-cases (put_pending c asked s).1) [
              | inr x ↦ absurd (ground (arith, f, x.1))
              | inl x ↦
                  let same : x.0 ≡ p = ground (arith, f, x.1) in
                  ap (λ q. q.comparison_code) (sym same)
                  ∙ (put_pending-Stored c asked x.0 s x.1).code
            ]
      ]

  -- Two devices that pair with each other show the same comparison code: where a device answers the
  -- offer of another, and that one accepts the answer, the code of the entry that the offer left in
  -- the first one's store is the code of the entry that the second one shows.
  pub codes_agree :
      (c c' : Call) (answering offering : Device) (cert cert' : Certificate) (nonce id fp : Text)
      (own : Option Text) (s s' : Store) (a : Message) (p : Peer)
      → (answer_offer u h c answering cert (pair_message offer_kind offering nonce) own s).1
        ≡ some a
      → (accept_answer u h c' offering cert' id fp nonce a s').1 ≡ some p
      → (q : Peer) × (lookup offering.id
            (answer_offer u h c answering cert
              (pair_message offer_kind offering nonce)
              own
              s).0.pending_peers
          ≡ some q)
        × (q.comparison_code ≡ p.comparison_code)
  codes_agree c c' answering offering cert cert' nonce id fp own s s' a p e f =
      let out =
        answer_offer-Answered c answering cert (pair_message offer_kind offering nonce) a own s e in
      let theirs : sender a ≡ side answering out.nonce = ap sender out.is_answered in
      (
        out.entry,
        out.found,
        out.code
            ∙ comparison_code_comm h.sum (side answering out.nonce) (side offering nonce)
            ∙ ap (comparison_code h.sum (side offering nonce)) (sym theirs)
            ∙ sym (accept_answer-code c' offering cert' id fp nonce a s' p f),
      )
