-- ===== src/Finality.antt =====
-- `recheck_chain` of verify/verify_mark.py: the recorded settlement, compared with what an RPC node
-- says of the chain. The node's answers are a parameter.
pub mod Calldata
use whpstanding.Prelude.{
  ℕ, ◌+◌, Bool, true, false, not, ◌&&◌, String, List, [], ◌∷◌, ◌++◌, length, leb, ◌==◌, map,
  if◌then◌else◌, pos, eqb_ℤ, Option, none, some,
}
use whpstanding.Result.{Result, ok, err, ◌>>=◌, ◌>>◌, need, ◌and◌, each, all_of}
use whpstanding.Text.{Text, lit, text_eq, starts_with, decimal}
use whpstanding.Dict.{Dict, get, has_key, is_some}
use whpstanding.Value.{
  Value, bool, int, str, obj, txt, list, dict, ◌!◌, ◌!!◌, as_fields, as_text, truthy, value_eq,
  iterate,
}
use whpstanding.Number.{as_decimal, as_hex, lower}
use whpstanding.Compare.{◌=?◌, const, text}
use Calldata.{calldata, topic}

-- What the JSON-RPC endpoint answers to a request body.
abbrev pub Node : Type 0
Node = Value → Result Value

unfoldable pub truthy_or_false : Option Value → Bool
truthy_or_false none = false
truthy_or_false (some v) = truthy v

-- `l.get('removed', False)`
unfoldable pub is_removed : Value → Result Bool
is_removed l = do fields ← as_fields l; ok (truthy_or_false (get (lit "removed") fields))

unfoldable pub transfer_topic : Text
transfer_topic = lit "0xddf252ad1be2c89b69c2b068fc378daa952ba7f163c4a11628f55a4df523b3ef"

unfoldable pub authorization_topic : Text
authorization_topic = lit "0x98de503528ee59b575ef0c0a2576a82497bfc029a5685b209e9ec333479b10a5"

-- `[x for x in xs if test(x)]` with a test that may raise
unfoldable pub select : (Value → Result Bool) → List Value → Result (List Value)
select test [] = ok []
select test (x ∷ xs) = do fits ← test x; rest ← select test xs; ok (if fits then x ∷ rest else rest)

-- `[x.lower() for x in l['topics']] == wanted`
unfoldable pub has_topics : List Text → Value → Result Bool
has_topics wanted l = do
  topics ← iterate (← l ! "topics")
  found ← each lower topics
  ok (value_eq (list (map str found)) (list (map str wanted)))

-- a log of the asset's contract, in this transaction and block, that stands
unfoldable pub is_own_log : Value → Value → Value → Value → Result Bool
is_own_log r receipt transaction l =
    (do ok (text_eq (← lower (← l ! "address")) (← lower (← r ! "asset"))))
    and (do removed ← is_removed l; ok (not removed))
    and (do ok (value_eq (str (← lower (← l ! "transactionHash"))) transaction))
    and (l ! "blockHash" =? receipt ! "blockHash")

-- the one `AuthorizationUsed` and the one `Transfer` of the payment
unfoldable pub check_logs : Value → Value → Value → Value → Result (Unit {0})
check_logs r a receipt transaction = do
  logs ← select (is_own_log r receipt transaction) (← iterate (← receipt ! "logs"))
  payer ← topic (← a ! "from")
  nonce ← lower (← a ! "nonce")
  used ← select (has_topics (authorization_topic ∷ payer ∷ nonce ∷ [])) logs
  recipient ← topic (← a ! "to")
  moved ←
      select
        (λ l. has_topics (transfer_topic ∷ payer ∷ recipient ∷ []) l and (do
          amount ← as_hex (← l ! "data")
          wanted ← as_decimal (← a ! "value")
          ok (eqb_ℤ (pos amount) wanted)))
        logs
  need (length used == 1 && length moved == 1) "PAYMENT_EVENT_IDENTITY_MISMATCH"

module _ (node : Node) where
  -- `rpc(method, params)`
  unfoldable pub call_rpc : String → List Value → Result Value
  call_rpc method params = do
    let body = obj (
        dict (
          ("jsonrpc", txt "2.0")
          ∷ ("id", int (pos 1))
          ∷ ("method", txt method)
          ∷ ("params", list params)
          ∷ []))
    answer ← node body
    fields ← as_fields answer
    need (not (has_key (lit "error") fields)) "RPC_ERROR"
    answer ! "result"

  -- the receipt and the transaction, mined at or below the finalized head
  unfoldable pub check_finalized : Value → Value → Value → Result (Unit {0})
  check_finalized receipt tx head = do
    need
        (← ok (truthy receipt && truthy tx && truthy head)
          and (receipt ! "status" =? const "0x1")
          and (do ok (leb (← as_hex (← receipt ! "blockNumber")) (← as_hex (← head ! "number")))))
        "SETTLEMENT_NOT_FINALIZED"

  unfoldable pub recheck_chain : Value → Text → Result Value
  recheck_chain p url = do
    need (starts_with url (lit "https://")) "HTTPS_RPC_REQUIRED"
    need (← p ! "environment" =? const "LIVE") "TEST_PAYMENT_HAS_NO_CHAIN_FINALITY"
    pay ← p ! "commerce" !! "payment_payload"
    r ← pay ! "accepted"
    a ← pay ! "payload" !! "authorization"
    s ← p ! "commerce" !! "settlement"
    transaction ← s ! "transaction"
    chain ← as_hex (← call_rpc "eth_chainId" [])
    need (← text (lit "eip155:" ++ decimal chain) =? r ! "network") "RPC_CHAIN_MISMATCH"
    receipt ← call_rpc "eth_getTransactionReceipt" (transaction ∷ [])
    tx ← call_rpc "eth_getTransactionByHash" (transaction ∷ [])
    head ← call_rpc "eth_getBlockByNumber" (txt "finalized" ∷ bool false ∷ [])
    check_finalized receipt tx head
    number ← receipt ! "blockNumber"
    block ← call_rpc "eth_getBlockByNumber" (number ∷ bool false ∷ [])
    need
        (← (block ! "hash" =? receipt ! "blockHash")
          and (receipt ! "blockHash" =? tx ! "blockHash")
          and (tx ! "blockHash" =? s ! "block_hash"))
        "BLOCK_IDENTITY_MISMATCH"
    need
        (← (do ok (text_eq (← lower (← tx ! "to")) (← lower (← r ! "asset"))))
          and (do ok (value_eq (str (← lower (← tx ! "hash"))) transaction)))
        "WRONG_PAYMENT_TRANSACTION"
    expected ← calldata pay a
    need
        (← (do ok (text_eq (← lower (← tx ! "input")) expected))
          and (do ok (text_eq expected (← lower (← s ! "transaction_input")))))
        "TRANSFER_CALLDATA_MISMATCH"
    check_logs r a receipt transaction
    ok (txt "FINALIZED_RECHECKED_AGAINST_SUPPLIED_RPC")
