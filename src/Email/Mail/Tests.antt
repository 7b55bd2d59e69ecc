-- ===== src/Email/Mail/Tests.antt =====
-- The mails at concrete jobs.
use bank_system.Prelude.{◌≡◌, refl, str_eq, [], ◌∷◌, if◌then◌else◌}
use bank_system.Email.{Job}
use bank_system.Email.Mail.{
  render_template, render_transaction_success, render_transaction_failed, message,
}
use bank_system.Email.Mail.Lines.{read_mail, line_start, header, read_mail-message}

abbrev job : Job
job = record {
  job_type = "transaction_success";
  to = "asha@mail";
  username = "asha";
  extra_data = λ key. if str_eq key "amount" then "25.00" else "debit";
}

subject_of_job : (render_template job).0 ≡ "Transaction Successful — ₹25.00 debit"
unfolding render_template render_transaction_success
subject_of_job = refl

read_mail-message_example :
    read_mail line_start (message "bank@mail" job)
    ≡ (header "bank@mail" "asha@mail" (render_template job).0, (render_template job).1)
unfolding render_template render_transaction_success
read_mail-message_example = read_mail-message "bank@mail" job refl refl refl

-- A line break in a value of the subject makes a line of its own of what follows.
abbrev forged : Job
forged = record job {
  job_type = "transaction_failed";
  extra_data = λ key. "25.00\r\nBcc: ravi@mail";
}

forged_line : (read_mail line_start (message "bank@mail" forged)).0 ≡ (
    "From: bank@mail" ∷ "To: asha@mail" ∷ "Subject: Transaction Failed — ₹25.00" ∷ "Bcc: ravi@mail"
    ∷ "MIME-Version: 1.0" ∷ "Content-Type: text/html; charset=\"UTF-8\"" ∷ [])
unfolding message render_template render_transaction_failed
forged_line = refl

-- So does a line feed alone.
forged_by_lf :
    (read_mail line_start
      (message "bank@mail" (record forged { extra_data = λ key. "25.00\nBcc: ravi@mail" }))).0
    ≡ ("From: bank@mail" ∷ "To: asha@mail" ∷ "Subject: Transaction Failed — ₹25.00"
        ∷ "Bcc: ravi@mail" ∷ "MIME-Version: 1.0" ∷ "Content-Type: text/html; charset=\"UTF-8\""
        ∷ [])
unfolding message render_template render_transaction_failed
forged_by_lf = refl
