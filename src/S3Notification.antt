-- ===== src/S3Notification.antt =====
-- plugins/modules/s3_bucket_notification.py: the notification that a bucket sends to a Lambda
-- function. `Config` is the class of that name, `Bucket` the class `AmazonBucket` with the two S3
-- calls it makes and the decision of `main`.
pub mod Config
pub mod Bucket
mod Tests
