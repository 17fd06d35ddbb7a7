-- ===== src/Entities/Constants.antt =====
-- common/constants: the codes that the handlers use.
use go_m_layer.Prelude.{ℕ}

-- common/constants/event.go
abbrev pub delete_subnet_event : ℕ
delete_subnet_event = 500

abbrev pub create_subnet_event : ℕ
create_subnet_event = 501

abbrev pub update_subnet_event : ℕ
update_subnet_event = 509

abbrev pub authorization_event : ℕ
authorization_event = 600

abbrev pub create_topic_event : ℕ
create_topic_event = 1001

abbrev pub ban_member_event : ℕ
ban_member_event = 1003

abbrev pub unban_member_event : ℕ
unban_member_event = 1004

abbrev pub update_name_event : ℕ
update_name_event = 1006

abbrev pub update_avatar_event : ℕ
update_avatar_event = 1008

abbrev pub update_topic_event : ℕ
update_topic_event = 1009

abbrev pub leave_event : ℕ
leave_event = 1100

abbrev pub subscribe_topic_event : ℕ
subscribe_topic_event = 1101

abbrev pub approved_event : ℕ
approved_event = 1103

abbrev pub send_message_event : ℕ
send_message_event = 1201

abbrev pub create_wallet_event : ℕ
create_wallet_event = 1401

abbrev pub update_wallet_event : ℕ
update_wallet_event = 1409

-- common/constants/privilege.go
abbrev pub member_priviledge : ℕ
member_priviledge = 20

abbrev pub admin_priviledge : ℕ
admin_priviledge = 40

abbrev pub topic_writer_role : ℕ
topic_writer_role = 10

abbrev pub topic_manager_role : ℕ
topic_manager_role = 20

abbrev pub unsubscribed_subscription_status : ℕ
unsubscribed_subscription_status = 0

abbrev pub invited_subscription_status : ℕ
invited_subscription_status = 10

abbrev pub subscribed_subscription_status : ℕ
subscribed_subscription_status = 30

abbrev pub banned_subscription_status : ℕ
banned_subscription_status = 40
