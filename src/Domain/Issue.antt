-- ===== src/Domain/Issue.antt =====
-- packages/core/src/domain/domain.ts: an issue as the tracker reports it. The `nativeRef`,
-- the URLs, `assigneeId` and `updatedAt` are carried and never read by the modelled code.
use sloppenheimer_ts.Base.{ℕ, String, Bool, List, Option}

pub record BlockerRef : Type 0 where
  pub id : String
  pub identifier : String
  pub title : String
  pub state : String

pub record Issue : Type 0 where
  pub id : String
  pub identifier : String
  pub title : String
  pub description : Option String
  pub priority : Option ℕ
  pub state : String
  pub labels : List String
  pub blocked_by : List BlockerRef
  pub dispatchable : Bool
  pub created_at : Option ℕ
