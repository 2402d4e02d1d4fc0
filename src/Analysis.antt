-- ===== src/Analysis.antt =====
-- The page that analyses a certificate: console/src/pages/Analysis/Tls/index.tsx. The translations and
-- the text of an exception are arguments; the data of an answer are a parameter.
pub mod Shown
mod Tests
use nfx_edge.Common.{
  Text, codes, Bool, true, false, not, ◌&&◌, ◌||◌, Option, none, some, List, [], ◌∷◌, if◌then◌else◌,
  trim, truthy,
}

-- `AnalyzeTLSResponse`, with its data as the body; the message is the one that `getCommandMessage` makes of it.
pub record Response {ℓ} (D : Type ℓ) : Type ℓ where
  pub success : Bool
  pub message : Text
  pub body : D

-- `AnalyzeTLSRequest`
pub record Request : Type 0 where
  pub certificate : Text
  pub private_key : Option Text

module _ {ℓ} (D : Type ℓ) where
  pub record Page : Type ℓ where
    pub certificate : Text
    pub private_key : Text
    pub result : Option (Response D)
    pub error : Option Text
    pub pending : Bool

  abbrev pub first_page : Page
  first_page = record {
    certificate = [];
    private_key = [];
    result = none;
    error = none;
    pending = false;
  }

  -- What is done, and the answers.
  pub data Act : Type ℓ where
    certificate_typed : Text → Act
    key_typed : Text → Act
    analyze_pressed : Act
    clear_pressed : Act
    answered : Response D → Act
    thrown : Text → Act

module _ {ℓ} {D : Type ℓ} where
  -- The request of `handleAnalyze`.
  unfoldable pub request_of : Page D → Request
  unfolding trim
  request_of page = record {
    certificate = trim page.certificate;
    private_key = if truthy (trim page.private_key) then some (trim page.private_key) else none;
  }

  unfoldable pub handle_clear : Page D → Page D
  handle_clear page = record page {
    certificate = [];
    private_key = [];
    result = none;
    error = none;
  }

module _ {ℓ} {D : Type ℓ} (need_certificate : Text) where
  -- `handleAnalyze` up to its `await`
  unfoldable pub handle_analyze : Page D → Page D
  unfolding trim
  handle_analyze page =
      if page.pending
      then page
      else if not (truthy (trim page.certificate))
      then record page { error = some need_certificate }
      else record page { error = none; result = none; pending = true }

  -- A button that is disabled does nothing; an answer comes only while one is awaited.
  unfoldable pub act_on : Act D → Page D → Page D
  unfolding handle_analyze handle_clear trim
  act_on (certificate_typed text) page = record page { certificate = text }
  act_on (key_typed text) page = record page { private_key = text }
  act_on analyze_pressed page =
      if not (truthy (trim page.certificate)) || page.pending then page else handle_analyze page
  act_on clear_pressed page = if page.pending then page else handle_clear page
  act_on (answered response) page =
      if page.pending
      then record page {
        pending = false;
        result = some response;
        error = if response.success then page.error else some response.message;
      }
      else page
  act_on (thrown message) page =
      if page.pending then record page { pending = false; error = some message } else page

  unfoldable pub act_all : List (Act D) → Page D → Page D
  unfolding act_on
  act_all [] page = page
  act_all (act ∷ acts) page = act_all acts (act_on act page)

-- `result?.success ? result.data : null`
unfoldable pub specimen {ℓ} : {D : Type ℓ} → Page D → Option D
specimen page = elim page.result [
  | none ↦ none
  | some response ↦ if response.success then some response.body else none
]
