-- ===== src/Tests/Codec.antt =====
-- A codec for transactions, to run the store: it stands in for `encoding/json` at `models.Transaction`, and
-- meets `CodecIsLawful`. Each field is written as its characters, each behind a dot, and a semicolon.
use Prim.Native.Char.{Char, code}
use Prim.Native.String.{String, [], ◌∷◌}
use mathlib.Core.List.{List}
use poselink_api_middleware.Common.{
  ℕ, zero, suc, ◌≡◌, refl, sym, ap, ◌∙◌, Option, none, some, Result, ok, err, ◌==◌, if◌then◌else◌,
}
use poselink_api_middleware.Models.{EdcResponse, Transaction}
use poselink_api_middleware.Store.RedisStore.{TransactionCodec, CodecIsLawful}

abbrev dot : Char
dot = "."

abbrev semicolon : Char
semicolon = ";"

write_field : String → String → String
write_field [] rest = semicolon ∷ rest
write_field (c ∷ s) rest = dot ∷ (c ∷ write_field s rest)

write_fields : List String → String
unfolding write_field
write_fields List.[] = []
write_fields (List.◌∷◌ x xs) = write_field x (write_fields xs)

abbrev push : Char → List String → List String
push c List.[] = List.[]
push c (List.◌∷◌ x xs) = List.◌∷◌ (c ∷ x) xs

read_fields : String → List String
read_fields [] = List.[]
read_fields (c ∷ []) = if code c == b';' then List.◌∷◌ [] List.[] else List.[]
read_fields (c ∷ (d ∷ s)) =
    let next = List.◌∷◌ [] (read_fields (d ∷ s)) in
    let more = push d (read_fields s) in if code c == b';' then next else more

read_fields-write_field :
    (s rest : String) → read_fields (write_field s rest) ≡ List.◌∷◌ s (read_fields rest)
unfolding read_fields write_field
read_fields-write_field [] [] = refl
read_fields-write_field [] (c ∷ rest) = refl
read_fields-write_field (c ∷ s) rest = ap (push c) (read_fields-write_field s rest)

read_fields-write_fields : (xs : List String) → read_fields (write_fields xs) ≡ xs
unfolding write_fields read_fields
read_fields-write_fields List.[] = refl
read_fields-write_fields (List.◌∷◌ x xs) =
    read_fields-write_field x (write_fields xs)
    ∙ ap (λ (ys : List String). List.◌∷◌ x ys) (read_fields-write_fields xs)

-- Numbers in unary.
unary : ℕ → String
unary zero = []
unary (suc n) = dot ∷ unary n

of_unary : String → ℕ
of_unary [] = zero
of_unary (c ∷ s) = suc (of_unary s)

of_unary-unary : (n : ℕ) → of_unary (unary n) ≡ n
unfolding unary of_unary
of_unary-unary zero = refl
of_unary-unary (suc n) = ap suc (of_unary-unary n)

response_fields : Option EdcResponse → List String
response_fields none = List.[]
response_fields (some r) = List.◌∷◌ r.acq_mid (
    List.◌∷◌ r.acq_tid (
      List.◌∷◌ r.action (
        List.◌∷◌ r.amount (
          List.◌∷◌ r.approval (
            List.◌∷◌ r.batch_number (
              List.◌∷◌ r.card_category (
                List.◌∷◌ r.card_name (
                  List.◌∷◌ r.card_type (
                    List.◌∷◌ r.edc_address (
                      List.◌∷◌ r.is_credit (
                        List.◌∷◌ r.is_off_us (
                          List.◌∷◌ r.method (
                            List.◌∷◌ r.msg (
                              List.◌∷◌ r.pan (
                                List.◌∷◌ r.periode (
                                  List.◌∷◌ r.plan (
                                    List.◌∷◌ r.pos_address (
                                      List.◌∷◌ r.rc (
                                        List.◌∷◌ r.reference_number (
                                          List.◌∷◌ r.status (
                                            List.◌∷◌ r.trace_number (
                                              List.◌∷◌ r.transaction_date
                                                (List.◌∷◌ r.trx_id List.[])))))))))))))))))))))))

of_response_fields : List String → Option EdcResponse
of_response_fields
      (List.◌∷◌ x_acq_mid (
        List.◌∷◌ x_acq_tid (
          List.◌∷◌ x_action (
            List.◌∷◌ x_amount (
              List.◌∷◌ x_approval (
                List.◌∷◌ x_batch_number (
                  List.◌∷◌ x_card_category (
                    List.◌∷◌ x_card_name (
                      List.◌∷◌ x_card_type (
                        List.◌∷◌ x_edc_address (
                          List.◌∷◌ x_is_credit (
                            List.◌∷◌ x_is_off_us (
                              List.◌∷◌ x_method (
                                List.◌∷◌ x_msg (
                                  List.◌∷◌ x_pan (
                                    List.◌∷◌ x_periode (
                                      List.◌∷◌ x_plan (
                                        List.◌∷◌ x_pos_address (
                                          List.◌∷◌ x_rc (
                                            List.◌∷◌ x_reference_number (
                                              List.◌∷◌ x_status (
                                                List.◌∷◌ x_trace_number (
                                                  List.◌∷◌ x_transaction_date (
                                                    List.◌∷◌ x_trx_id
                                                      List.[])))))))))))))))))))))))) =
    some (record {
      acq_mid = x_acq_mid;
      acq_tid = x_acq_tid;
      action = x_action;
      amount = x_amount;
      approval = x_approval;
      batch_number = x_batch_number;
      card_category = x_card_category;
      card_name = x_card_name;
      card_type = x_card_type;
      edc_address = x_edc_address;
      is_credit = x_is_credit;
      is_off_us = x_is_off_us;
      method = x_method;
      msg = x_msg;
      pan = x_pan;
      periode = x_periode;
      plan = x_plan;
      pos_address = x_pos_address;
      rc = x_rc;
      reference_number = x_reference_number;
      status = x_status;
      trace_number = x_trace_number;
      transaction_date = x_transaction_date;
      trx_id = x_trx_id;
    })
of_response_fields _ = none

of_response_fields_lem : (r : Option EdcResponse) → of_response_fields (response_fields r) ≡ r
unfolding of_response_fields response_fields
of_response_fields_lem none = refl
of_response_fields_lem (some r) = refl

transaction_fields : Transaction → List String
unfolding unary response_fields
transaction_fields tx = List.◌∷◌ tx.trx_id (
    List.◌∷◌ tx.status (
      List.◌∷◌ (unary tx.created_at) (
        List.◌∷◌ (unary tx.updated_at) (
          List.◌∷◌ tx.request_data.token (
            List.◌∷◌ tx.request_data.mid (
              List.◌∷◌ tx.request_data.tid
                (List.◌∷◌ tx.request_data.trx_id (response_fields tx.response_data))))))))

of_transaction_fields : List String → Result String Transaction
unfolding of_unary of_response_fields
of_transaction_fields
      (List.◌∷◌ a (
        List.◌∷◌ b
          (List.◌∷◌ c (List.◌∷◌ d (List.◌∷◌ e (List.◌∷◌ f (List.◌∷◌ g (List.◌∷◌ h rest)))))))) =
    ok (record {
      trx_id = a;
      status = b;
      created_at = of_unary c;
      updated_at = of_unary d;
      request_data = record { token = e; mid = f; tid = g; trx_id = h };
      response_data = of_response_fields rest;
      notify_chan = none;
    })
of_transaction_fields _ = err "unexpected end of input"

unfoldable pub text_codec : TransactionCodec
unfolding write_fields transaction_fields of_transaction_fields read_fields
text_codec = record {
  marshal = λ tx. ok (write_fields (transaction_fields tx));
  unmarshal = λ s. of_transaction_fields (read_fields s);
}

of_transaction_fields_lem :
    (tx : Transaction)
    → of_transaction_fields (transaction_fields tx) ≡ ok (record tx { notify_chan = none })
unfolding of_transaction_fields transaction_fields
of_transaction_fields_lem tx = simp (of_unary-unary, of_response_fields_lem)

unmarshal-marshal :
    (tx : Transaction) (text : String)
    → text_codec.marshal tx ≡ ok text
    → text_codec.unmarshal text ≡ ok (record tx { notify_chan = none })
unfolding text_codec
unmarshal-marshal tx text e =
    ap (λ (s : String). of_transaction_fields (read_fields s)) (sym (ok_inj e))
    ∙ ap of_transaction_fields (read_fields-write_fields (transaction_fields tx))
    ∙ of_transaction_fields_lem tx
  where
    ok_inj : {s t : String} → ◌≡◌ {A = Result String String} (ok s) (ok t) → s ≡ t
    ok_inj e = cc

of_transaction_fields-bare :
    (xs : List String) (tx : Transaction) → of_transaction_fields xs ≡ ok tx → tx.notify_chan ≡ none
unfolding of_transaction_fields
of_transaction_fields-bare List.[] tx same = cc
of_transaction_fields-bare (List.◌∷◌ a List.[]) tx same = cc
of_transaction_fields-bare (List.◌∷◌ a (List.◌∷◌ b List.[])) tx same = cc
of_transaction_fields-bare (List.◌∷◌ a (List.◌∷◌ b (List.◌∷◌ c List.[]))) tx same = cc
of_transaction_fields-bare (List.◌∷◌ a (List.◌∷◌ b (List.◌∷◌ c (List.◌∷◌ d List.[])))) tx same = cc
of_transaction_fields-bare (List.◌∷◌ a (List.◌∷◌ b (List.◌∷◌ c (List.◌∷◌ d (List.◌∷◌ e List.[])))))
      tx same =
    cc
of_transaction_fields-bare
      (List.◌∷◌ a (List.◌∷◌ b (List.◌∷◌ c (List.◌∷◌ d (List.◌∷◌ e (List.◌∷◌ f List.[])))))) tx
      same =
    cc
of_transaction_fields-bare
      (List.◌∷◌ a
        (List.◌∷◌ b (List.◌∷◌ c (List.◌∷◌ d (List.◌∷◌ e (List.◌∷◌ f (List.◌∷◌ g List.[])))))))
      tx same =
    cc
of_transaction_fields-bare
      (List.◌∷◌ a (
        List.◌∷◌ b
          (List.◌∷◌ c (List.◌∷◌ d (List.◌∷◌ e (List.◌∷◌ f (List.◌∷◌ g (List.◌∷◌ h rest))))))))
      tx same =
    sym (ap channel same)
  where
    channel : Result String Transaction → Option ℕ
    channel (ok t) = t.notify_chan
    channel (err m) = none

unmarshal-notify_chan :
    (text : String) (tx : Transaction) → text_codec.unmarshal text ≡ ok tx → tx.notify_chan ≡ none
unfolding text_codec
unmarshal-notify_chan text tx e = of_transaction_fields-bare (read_fields text) tx e

pub text_codec-IsLawful : CodecIsLawful text_codec
text_codec-IsLawful = record {
  unmarshal-marshal = unmarshal-marshal;
  unmarshal-notify_chan = unmarshal-notify_chan;
}
