-- ===== src/Email/Mail.antt =====
-- internal/email/templates.go, and `send` of internal/email/worker.go up to the call of net/smtp: the
-- texts of the mails.
pub mod Lines
mod Tests
use bank_system.Prelude.{String, str_append, str_eq, List, [], ◌∷◌, ◌++◌, if◌then◌else◌}
use bank_system.Email.{Job}

-- A value between two texts.
abbrev text_of : String → String → String → String
text_of before value after = str_append before (str_append value after)

-- Every line after a line break.
abbrev joined : List String → String
joined [] = ""
joined (x ∷ l) = str_append "\n" (str_append x (joined l))

-- The lines that the pages begin and end with.
abbrev page_head : List String
page_head =
    "<!DOCTYPE html>" ∷ "<html>" ∷ "<head><meta charset=\"UTF-8\"></head>"
    ∷ "<body style=\"font-family: 'Segoe UI', Arial, sans-serif; background: #0f0f0f; color: #e0e0e0; padding: 40px;\">"
    ∷ "  <div style=\"max-width: 560px; margin: auto; background: #1a1a2e; border-radius: 12px; padding: 32px; border: 1px solid #2a2a4a;\">"
    ∷ []

abbrev page_foot : List String
page_foot = "  </div>" ∷ "</body>" ∷ "</html>" ∷ []

abbrev page : List String → String
page l = joined (page_head ++ l ++ page_foot)

-- `renderWelcome`
unfoldable pub render_welcome : Job → String × String
render_welcome job = (
  "Welcome to OmniLedger 🏦",
  page (
      "    <h1 style=\"color: #a78bfa; margin-top: 0;\">Welcome to OmniLedger</h1>"
      ∷ text_of "    <p>Hello <strong>" job.username "</strong>,</p>"
      ∷ "    <p>Your account has been created successfully. You are now part of the most secure banking system ever built.</p>"
      ∷ "    <hr style=\"border-color: #2a2a4a;\">"
      ∷ "    <p style=\"font-size: 13px; color: #888;\">If you did not create this account, please contact support immediately.</p>"
      ∷ []),
)

-- `renderTransactionSuccess`
unfoldable pub render_transaction_success : Job → String × String
render_transaction_success job = (
  str_append (text_of "Transaction Successful — ₹" (job.extra_data "amount") " ")
      (job.extra_data "direction"),
  page (
      "    <h1 style=\"color: #34d399; margin-top: 0;\">Transaction Successful ✓</h1>"
      ∷ text_of "    <p>Hello <strong>" job.username "</strong>,</p>"
      ∷ "    <p>Your transaction has been completed successfully.</p>"
      ∷ "    <table style=\"width: 100%; border-collapse: collapse; margin: 16px 0;\">"
      ∷ text_of
          "      <tr><td style=\"padding: 8px; color: #888;\">Amount</td><td style=\"padding: 8px; font-weight: bold;\">₹"
          (job.extra_data "amount") "</td></tr>"
      ∷ text_of
          "      <tr><td style=\"padding: 8px; color: #888;\">Direction</td><td style=\"padding: 8px;\">"
          (job.extra_data "direction") "</td></tr>"
      ∷ text_of
          "      <tr><td style=\"padding: 8px; color: #888;\">Transaction ID</td><td style=\"padding: 8px; font-family: monospace; font-size: 12px;\">"
          (job.extra_data "transaction_id") "</td></tr>"
      ∷ "    </table>"
      ∷ "    <hr style=\"border-color: #2a2a4a;\">"
      ∷ "    <p style=\"font-size: 13px; color: #888;\">This is an automated notification from OmniLedger.</p>"
      ∷ []),
)

-- `renderTransactionFailed`
unfoldable pub render_transaction_failed : Job → String × String
render_transaction_failed job = (
  str_append "Transaction Failed — ₹" (job.extra_data "amount"),
  page (
      "    <h1 style=\"color: #f87171; margin-top: 0;\">Transaction Failed ✗</h1>"
      ∷ text_of "    <p>Hello <strong>" job.username "</strong>,</p>"
      ∷ text_of "    <p>Unfortunately, your transaction of <strong>₹" (job.extra_data "amount")
          "</strong> could not be processed.</p>"
      ∷ "    <table style=\"width: 100%; border-collapse: collapse; margin: 16px 0;\">"
      ∷ text_of
          "      <tr><td style=\"padding: 8px; color: #888;\">Amount</td><td style=\"padding: 8px; font-weight: bold;\">₹"
          (job.extra_data "amount") "</td></tr>"
      ∷ text_of
          "      <tr><td style=\"padding: 8px; color: #888;\">Reason</td><td style=\"padding: 8px; color: #f87171;\">"
          (job.extra_data "reason") "</td></tr>"
      ∷ "    </table>"
      ∷ "    <hr style=\"border-color: #2a2a4a;\">"
      ∷ "    <p style=\"font-size: 13px; color: #888;\">Please retry or contact support if the issue persists.</p>"
      ∷ []),
)

-- `RenderTemplate`: the subject and the body.
unfoldable pub render_template : Job → String × String
render_template job =
    if str_eq job.job_type "welcome"
    then render_welcome job
    else if str_eq job.job_type "transaction_success"
    then render_transaction_success job
    else if str_eq job.job_type "transaction_failed"
    then render_transaction_failed job
    else ("OmniLedger Notification", "<p>You have a new notification from OmniLedger.</p>")

abbrev mime_lines : String
mime_lines = "\r\nMIME-Version: 1.0\r\nContent-Type: text/html; charset=\"UTF-8\"\r\n\r\n"

-- The message that `send` hands to `smtp.SendMail`, for the address of the settings.
unfoldable pub message : String → Job → String
message from job =
    let (subject, body) = render_template job in
    str_append "From: " (
      str_append from (
        str_append "\r\nTo: " (
          str_append job.to
            (str_append "\r\nSubject: " (str_append subject (str_append mime_lines body))))))
